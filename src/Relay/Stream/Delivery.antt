-- ===== src/Relay/Stream/Delivery.antt =====
-- What `stream_up_upload` of core/voidz_core/relay/xhttp.py writes to the target.
use voidz.Prelude.{
  ℕ, ◌≡◌, refl, sym, ap, ◌∙◌, String, Bool, true, false, inl, inr, List, [], ◌∷◌, ◌++◌,
  append_assoc, append-nil, Option, none, some, length, ltb, ◌==◌, ==_iff, list_eq, nat_eq,
  Bool-cases,
}
use voidz.Prelude.Result.{ok, raise}
use voidz.Relay.Bytes.{Bytes, Text}
use voidz.Relay.Gate.{Rates, Context, Gate}
use voidz.Relay.Flow.{should_drain}
use voidz.Relay.Trojan.{Digest}
use voidz.Relay.Stream.{
  Network, Arrival, Upload, max_stream_chunk, drain, written, delivered, gated, chunk, after,
  chunks, Step,
}

-- The body of the request.
unfoldable pub joined : List Arrival → Bytes
joined [] = []
joined (a ∷ rest) = a.body ++ joined rest

module _ (r : Rates) (digest : Digest) (decode : Bytes → Text) (uuid : String) where
  -- Of the bytes `body` a step with `s` written before has written a part at their head, and all
  -- of them if it raised nothing.
  abbrev pub Writes : Bytes → Bytes → Step r digest decode uuid → Type 0
  Writes s body st =
      (pre : Bytes) × (post : Bytes) × (st.1.sent ≡ some (s ++ pre))
      × (pre ++ post ≡ body)
      × (st.0 ≡ ok tt → post ≡ [])

  drain-sent :
      (drained : Option ℕ) (u : Upload r) → (drain r digest decode uuid drained u).1.sent ≡ u.sent
  unfolding drain
  drain-sent none u = refl
  drain-sent (some elapsed) u = refl

  written-Writes :
      (net : Network) (s body : Bytes) (u : Upload r)
      → u.sent ≡ some s
      → Writes s body (written r digest decode uuid net s body u)
  unfolding written
  written-Writes net s body u here = elim (Bool-cases net.closing) [
    | inl e ↦ rw e ([], body, here ∙ ap some (sym (append-nil s)), refl, λ no. cc)
    | inr e ↦ rw e (elim (Bool-cases (should_drain net.waiting u.high_water)) [
      | inl d ↦ rw d (body, [], drain-sent net.drained _, append-nil body, λ _. refl)
      | inr d ↦ rw d (body, [], refl, append-nil body, λ _. refl)
    ])
  ]

  delivered-Writes :
      (a : Arrival) (s : Bytes) (w : Option Bytes) (u : Upload r)
      → w ≡ some s
      → u.sent ≡ some s
      → Writes s a.body (delivered r digest decode uuid a w u)
  unfolding delivered
  delivered-Writes a s none u e here = cc
  delivered-Writes a s (some s') u e here =
      let same : s' ≡ s = cc in rw same (written-Writes a.network s a.body u here)

  gated-Writes :
      (a : Arrival) (s : Bytes) (o : Bool × Gate r × Context) (u : Upload r)
      → u.sent ≡ some s
      → Writes s a.body (gated r digest decode uuid a o u)
  unfolding gated
  gated-Writes a s (false, gate, ctx) u here =
      ([], a.body, here ∙ ap some (sym (append-nil s)), refl, λ no. cc)
  gated-Writes a s (true, gate, ctx) u here = delivered-Writes a s u.sent _ here here

  chunk-Writes :
      (a : Arrival) (s : Bytes) (u : Upload r)
      → u.sent ≡ some s
      → Writes s a.body (chunk r digest decode uuid a u)
  unfolding chunk
  chunk-Writes a s u here = elim (Bool-cases (a.body == [])) [
    | inl e ↦
        rw e ([], [], here ∙ ap some (sym (append-nil s)), sym ((==_iff a.body []).0 e), λ _. refl)
    | inr e ↦ rw e (elim (Bool-cases (ltb max_stream_chunk (length a.body))) [
      | inl big ↦ rw big ([], a.body, here ∙ ap some (sym (append-nil s)), refl, λ no. cc)
      | inr small ↦ rw small (gated-Writes a s _ u here)
    ])
  ]

  after-Writes :
      (s body more : Bytes) (st : Step r digest decode uuid)
      (next : Upload r → Step r digest decode uuid)
      → Writes s body st
      → ((s' : Bytes) (u' : Upload r) → u'.sent ≡ some s' → Writes s' more (next u'))
      → Writes s (body ++ more) (after r digest decode uuid st next)
  after-Writes s body more (raise e, u) next (pre, post, here, whole, none_left) k = (
    pre,
    post ++ more,
    here,
    sym (append_assoc pre post more) ∙ ap (λ (b : Bytes). b ++ more) whole,
    λ no. cc,
  )
  after-Writes s body more (ok v, u) next (pre, post, here, whole, none_left) k =
      let is_all : post ≡ [] = none_left refl in
      let pre_all : pre ≡ body = sym (append-nil pre) ∙ ap (◌++◌ pre) (sym is_all) ∙ whole in
      let (pre', post', there, rest, done) = k (s ++ pre) u here in
      (
        pre ++ pre',
        post',
        there ∙ ap some (append_assoc s pre pre'),
        append_assoc pre pre' post' ∙ ap (◌++◌ pre) rest ∙ ap (λ (b : Bytes). b ++ more) pre_all,
        done,
      )

  pub chunks-Writes :
      (arrivals : List Arrival) (s : Bytes) (u : Upload r)
      → u.sent ≡ some s
      → Writes s (joined arrivals) (chunks r digest decode uuid arrivals u)
  unfolding chunks joined
  chunks-Writes [] s u here = ([], [], here ∙ ap some (sym (append-nil s)), refl, λ _. refl)
  chunks-Writes (a ∷ rest) s u here =
      after-Writes s a.body (joined rest) _ (chunks r digest decode uuid rest)
        (chunk-Writes a s (record u { ctx = a.meanwhile u.ctx }) here)
        (λ s' u' e. chunks-Writes rest s' u' e)
