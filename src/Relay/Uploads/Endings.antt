-- ===== src/Relay/Uploads/Endings.antt =====
-- When an upload leaves a session behind (core/voidz_core/relay/xhttp.py).
use voidz.Prelude.{
  ℕ, ◌≡◌, refl, ap, ◌∙◌, ◌⊎◌, inl, inr, String, Bool, true, false, List, [], Option, none, some,
  length, ltb, ◌==◌, ==_refl, list_eq, nat_eq, string_eq, pair_eq, if◌then◌else◌, Bool-cases,
  Option-cases, arith,
}
use voidz.Prelude.Dict
use voidz.Prelude.Dict.{get, get-put, get-remove}
use voidz.Prelude.Result.{Result, ok, raise, http, Exn, >>=-eq-ok, >>-eq-ok}
use voidz.Core.Link.{Time}
use voidz.Relay.Bytes.{Bytes, Text}
use voidz.Relay.Gate.{Rates, Context, Now, Gate}
use voidz.Relay.Trojan.{Digest}
use voidz.Relay.Sessions.{Key, Sess, Engine, Request, get_or_create_session, teardown}
use voidz.Relay.Stream.{
  Arrival, Ending, Answer, done, Upload, complete, disconnected, Step, upload, answer,
}
use voidz.Relay.Uplink
use voidz.Relay.Sessions.Caps.{IsSound, get_or_create_own}
use voidz.Relay.Opening.{check_identifiers}
use voidz.Prelude.Texts.{codes}
use voidz.Relay.Uploads.{
  Packet, Reply, taken, aborted, key_of, with_context, left, streamed, stream_up_upload, placed,
  behind_gate, received, admitted, admission, check_seq, packet_up_upload, max_packet_body,
}

-- Behind a request: it changed nothing, its session is gone, or its session is there and the
-- answer is no error.
pub data Leaves (key : Key) (eng : Engine) {A : Type 0} : Result A × Engine → Type 0 where
  unchanged : (e : Exn) → Leaves key eng (raise e, eng)
  gone : (a : Result A) (eng' : Engine) → get key eng'.sessions ≡ none → Leaves key eng (a, eng')
  kept :
      (a : A) (eng' : Engine) (s : Sess)
      → get key eng'.sessions ≡ some s
      → Leaves key eng (ok a, eng')

teardown_gone : (key : Key) (eng : Engine) → get key (teardown key eng).sessions ≡ none
unfolding teardown
teardown_gone key eng = elim (Option-cases (get key eng.sessions)) [
  | inl e ↦ rw (e, teardown) e
  | inr (s, e) ↦
      rw (e, teardown)
        (get-remove key key eng.sessions
          ∙ ap (λ (b : Bool). if b then none else get key eng.sessions) (==_refl key))
]

put_there : (key : Key) (s : Sess) (d : Dict.Dict Key Sess) → get key (Dict.put key s d) ≡ some s
put_there key s d =
    get-put key key s d ∙ ap (λ (b : Bool). if b then some s else get key d) (==_refl key)

-- The session that a packet is given stands in the table.
session_there :
    (t : Time) (clock : ℕ) (req : Request) (p : Packet) (eng : Engine) (seq : ℕ) (sess : Sess)
    (eng' : Engine)
    → IsSound eng
    → admission t clock req p.seq eng ≡ ok (seq, sess, eng')
    → get (key_of req) eng'.sessions ≡ some sess
unfolding admission
session_there t clock req p eng seq sess eng' sound h =
    let h1 = >>-eq-ok (check_identifiers (codes req.session_id) (codes req.uuid)) _ h in
    let (n, in_range, h2) = >>=-eq-ok (check_seq p.seq) _ h1 in
    let ((s, e), found, h3) = >>=-eq-ok (get_or_create_session t clock req eng) _ h2 in
    let own = (get_or_create_own t clock req eng e s sound found).1 in
    let same_s : s ≡ sess = ground (arith, h3) in
    let same_e : e ≡ eng' = ground (arith, h3) in rw (← same_s, ← same_e) own

module _ (r : Rates) (digest : Digest) (decode : Bytes → Text) where
  -- The loop of an upload ends with a teardown, or with the answer of a complete body.
  answer_kept :
      (uuid : String) (ending : Ending) (now : Now) (st : Step r digest decode uuid)
      → ((answer r digest decode uuid ending now st).1 ≡ true)
        ⊎ ((answer r digest decode uuid ending now st).0 ≡ ok done)
  unfolding answer
  answer_kept uuid complete now (ok v, u) = inr refl
  answer_kept uuid disconnected now (ok v, u) = inl refl
  answer_kept uuid complete now (raise (http n), u) = inl refl
  answer_kept uuid disconnected now (raise (http n), u) = inl refl
  answer_kept uuid complete now (raise e, u) = inl refl
  answer_kept uuid disconnected now (raise e, u) = inl refl

  left-Leaves :
      (key : Key) (sess : Sess) (eng eng' : Engine) (o : Result Answer × Bool × Upload r)
      → (o.1 ≡ true) ⊎ (o.0 ≡ ok done)
      → Leaves key eng (left r digest decode key sess eng' o)
  unfolding left
  left-Leaves key sess eng eng' (a, true, u) h =
      gone a _ (teardown_gone key (with_context u.ctx eng'))
  left-Leaves key sess eng eng' (ok a, false, u) h = kept a _ _ (put_there key _ eng'.sessions)
  left-Leaves key sess eng eng' (raise e, false, u) (inl no_teardown) = cc
  left-Leaves key sess eng eng' (raise e, false, u) (inr no_error) = cc

  streamed-Leaves :
      (req : Request) (gate : Option (Gate r)) (high_water : ℕ) (arrivals : List Arrival)
      (ending : Ending) (now : Now) (eng : Engine) (o : Result (Sess × Engine))
      → Leaves
          (key_of req)
          eng
          (streamed r digest decode req gate high_water arrivals ending now eng o)
  unfolding streamed upload
  streamed-Leaves req gate high_water arrivals ending now eng (raise e) = unchanged e
  streamed-Leaves req gate high_water arrivals ending now eng (ok (sess, eng')) =
      left-Leaves (key_of req) sess eng eng' _ (answer_kept req.uuid ending now _)

  -- However a stream-up upload ends: it changed nothing and raises; or its session is not in the
  -- table any more; or its session is there and the answer is no error.
  pub stream_up_upload-Leaves :
      (t : Time) (clock : ℕ) (req : Request) (gate : Option (Gate r)) (high_water : ℕ)
      (arrivals : List Arrival) (ending : Ending) (now : Now) (eng : Engine)
      → Leaves
          (key_of req)
          eng
          (stream_up_upload r digest decode t clock req gate high_water arrivals ending now eng)
  unfolding stream_up_upload
  stream_up_upload-Leaves t clock req gate high_water arrivals ending now eng =
      streamed-Leaves req gate high_water arrivals ending now eng _

  placed-Leaves :
      (key : Key) (sess : Sess) (eng eng' : Engine) (o : Result (Reply × Uplink.Session))
      → Leaves key eng (placed r digest decode key sess eng' o)
  unfolding placed
  placed-Leaves key sess eng eng' (raise e) = gone _ _ (teardown_gone key eng')
  placed-Leaves key sess eng eng' (ok (reply, up)) = kept reply _ _ (put_there key _ eng'.sessions)

  behind_gate-Leaves :
      (p : Packet) (req : Request) (seq : ℕ) (body : Bytes) (sess : Sess) (eng eng' : Engine)
      (o : Bool × Gate r × Context)
      → Leaves (key_of req) eng (behind_gate r digest decode p req seq body sess eng' o)
  unfolding behind_gate
  behind_gate-Leaves p req seq body sess eng eng' (false, gate, ctx) =
      gone _ _ (teardown_gone (key_of req) (with_context ctx eng'))
  behind_gate-Leaves p req seq body sess eng eng' (true, gate, ctx) =
      placed-Leaves (key_of req) sess eng _ _

  received-Leaves :
      (p : Packet) (req : Request) (gate : Option (Gate r)) (seq : ℕ) (body : Option Bytes)
      (sess : Sess) (eng eng' : Engine)
      → get (key_of req) eng'.sessions ≡ some sess
      → Leaves (key_of req) eng (received r digest decode p req gate seq body sess eng')
  unfolding received
  received-Leaves p req gate seq none sess eng eng' there = kept aborted eng' sess there
  received-Leaves p req gate seq (some body) sess eng eng' there =
      elim (Bool-cases (ltb max_packet_body (length body))) [
        | inl big ↦ rw big (gone _ _ (teardown_gone (key_of req) eng'))
        | inr small ↦ rw small (elim (Bool-cases (body == [])) [
          | inl e ↦ rw e (kept taken eng' sess there)
          | inr e ↦ rw e (behind_gate-Leaves p req seq body sess eng eng' _)
        ])
      ]

  admitted-Leaves :
      (req : Request) (p : Packet) (gate : Option (Gate r)) (eng : Engine)
      (o : Result (ℕ × Sess × Engine))
      → ((seq : ℕ) (sess : Sess) (eng' : Engine)
          → o ≡ ok (seq, sess, eng')
          → get (key_of req) eng'.sessions ≡ some sess)
      → Leaves (key_of req) eng (admitted r digest decode p req gate eng o)
  unfolding admitted
  admitted-Leaves req p gate eng (raise e) there = unchanged e
  admitted-Leaves req p gate eng (ok (seq, sess, eng')) there =
      received-Leaves p req gate seq p.body sess eng eng' (there seq sess eng' refl)

  -- However a packet is answered, with a session table that is sound: it changed nothing and
  -- raises; or its session is not in the table any more; or its session is there and the answer
  -- is no error.
  pub packet_up_upload-Leaves :
      (t : Time) (clock : ℕ) (req : Request) (gate : Option (Gate r)) (p : Packet) (eng : Engine)
      → IsSound eng
      → Leaves (key_of req) eng (packet_up_upload r digest decode t clock req gate p eng)
  unfolding packet_up_upload
  packet_up_upload-Leaves t clock req gate p eng sound =
      admitted-Leaves req p gate eng _
        (λ seq sess eng' e. session_there t clock req p eng seq sess eng' sound e)
