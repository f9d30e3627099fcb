-- ===== src/Relay/Downlink/Fifo.antt =====
-- What the client of an xHTTP session gets (core/voidz_core/relay/xhttp.py).
use voidz.Prelude.{
  ◌≡◌, ◌≢◌, refl, sym, ap, ◌∙◌, Bool, true, false, inl, inr, List, [], ◌∷◌, ◌++◌, append_assoc,
  append-nil, Option, none, some, length, leb, ◌==◌, ==_iff, list_eq, nat_eq, if◌then◌else◌,
  Bool-cases,
}
use mathlib.Core.Path.{subst}
use voidz.Relay.Bytes.{Bytes}
use voidz.Relay.Gate.{Rates, Context, Now, Gate}
use voidz.Relay.Downlink.{
  Downlink, Reach, downlink_queue_max, framed, put_end, finished, passed, received, fetched_from,
  fetched, opened, read, failed, sent,
}

-- The data that waits in a queue.
unfoldable pub waiting : List (Option Bytes) → Bytes
waiting [] = []
waiting (some chunk ∷ queue) = chunk ++ waiting queue
waiting (none ∷ queue) = waiting queue

unfoldable pub has_end : List (Option Bytes) → Bool
has_end [] = false
has_end (some chunk ∷ queue) = has_end queue
has_end (none ∷ queue) = true

-- The end mark stands at the end only.
abbrev pub EndsLast : List (Option Bytes) → Type 0
EndsLast [] = Unit
EndsLast (some chunk ∷ queue) = EndsLast queue
EndsLast (none ∷ queue) = queue ≡ []

-- The answer of VLESS, once there is data, and the data of the target.
unfoldable pub stream_of : Bool → Bytes → Bytes
stream_of vless_prefix [] = []
stream_of vless_prefix (b ∷ bs) = if vless_prefix then 0 ∷ 0 ∷ b ∷ bs else b ∷ bs

waiting_put :
    (queue : List (Option Bytes)) (chunk : Bytes)
    → waiting (queue ++ some chunk ∷ []) ≡ waiting queue ++ chunk
unfolding waiting
waiting_put [] chunk = append-nil chunk
waiting_put (some c ∷ queue) chunk =
    ap (◌++◌ c) (waiting_put queue chunk) ∙ sym (append_assoc c (waiting queue) chunk)
waiting_put (none ∷ queue) chunk = waiting_put queue chunk

waiting_mark : (queue : List (Option Bytes)) → waiting (queue ++ none ∷ []) ≡ waiting queue
unfolding waiting
waiting_mark [] = refl
waiting_mark (some c ∷ queue) = ap (◌++◌ c) (waiting_mark queue)
waiting_mark (none ∷ queue) = waiting_mark queue

waiting-put_end : (queue : List (Option Bytes)) → waiting (put_end queue) ≡ waiting queue
unfolding put_end
waiting-put_end queue = elim (Bool-cases (leb downlink_queue_max (length queue))) [
  | inl full ↦ rw full
  | inr room ↦ rw room (waiting_mark queue)
]

has_end_put :
    (queue : List (Option Bytes)) (chunk : Bytes)
    → has_end (queue ++ some chunk ∷ []) ≡ has_end queue
unfolding has_end
has_end_put [] chunk = refl
has_end_put (some c ∷ queue) chunk = has_end_put queue chunk
has_end_put (none ∷ queue) chunk = refl

put-EndsLast :
    (queue : List (Option Bytes)) (item : Option Bytes)
    → has_end queue ≡ false
    → EndsLast (queue ++ item ∷ [])
unfolding has_end
put-EndsLast [] none no_end = refl
put-EndsLast [] (some c) no_end = tt
put-EndsLast (some c ∷ queue) item no_end = put-EndsLast queue item no_end
put-EndsLast (none ∷ queue) item no_end = cc

put_end-EndsLast :
    (queue : List (Option Bytes))
    → has_end queue ≡ false
    → EndsLast queue
    → EndsLast (put_end queue)
unfolding put_end
put_end-EndsLast queue no_end e = elim (Bool-cases (leb downlink_queue_max (length queue))) [
  | inl full ↦ rw full e
  | inr room ↦ rw room (put-EndsLast queue none no_end)
]

-- The first data of a stream, and more.
stream_first :
    (vless_prefix : Bool) (chunk : Bytes)
    → chunk ≢ []
    → framed vless_prefix true chunk ≡ stream_of vless_prefix chunk
unfolding framed stream_of
stream_first vless_prefix [] h = absurd (h refl)
stream_first true (b ∷ bs) h = refl
stream_first false (b ∷ bs) h = refl

stream_more :
    (vless_prefix : Bool) (taken chunk : Bytes)
    → taken ≢ []
    → stream_of vless_prefix taken ++ framed vless_prefix false chunk
      ≡ stream_of vless_prefix (taken ++ chunk)
unfolding framed stream_of
stream_more vless_prefix [] chunk h = absurd (h refl)
stream_more true (b ∷ bs) chunk h = refl
stream_more false (b ∷ bs) chunk h = refl

append-ne_nil : (taken chunk : Bytes) → chunk ≢ [] → taken ++ chunk ≢ []
append-ne_nil [] chunk h e = h e
append-ne_nil (b ∷ bs) chunk h e = cc

-- A marked queue has no pump.
marked_stops :
    (pumping : Bool) (queue : List (Option Bytes))
    → has_end queue ≡ true
    → (pumping ≡ true → has_end queue ≡ false)
    → pumping ≡ false
marked_stops false queue marked unmarked = refl
marked_stops true queue marked unmarked = let no : true ≡ false = sym marked ∙ unmarked refl in cc

module _ (r : Rates) (vless_prefix : Bool) where
  record IsFifo (d : Downlink r) : Type 0 where
    pub order : d.delivered ++ waiting d.queue ≡ stream_of vless_prefix d.taken
    pub fresh : d.first ≡ true → d.taken ≡ []
    pub begun : d.first ≡ false → d.taken ≢ []
    pub last : EndsLast d.queue
    pub unmarked : d.pumping ≡ true → has_end d.queue ≡ false
    pub over : d.reading ≡ false → (d.queue ≡ []) × (d.pumping ≡ false)

  finished-IsFifo :
      (now : Now) (d : Downlink r)
      → d.pumping ≡ true
      → IsFifo d
      → IsFifo (finished r vless_prefix now d)
  unfolding finished
  finished-IsFifo now d pumps f = record {
    order = ap (◌++◌ d.delivered) (waiting-put_end d.queue) ∙ f.order;
    fresh = f.fresh;
    begun = f.begun;
    last = put_end-EndsLast d.queue (f.unmarked pumps) f.last;
    unmarked = λ no. cc;
    over = λ stopped. let no : true ≡ false = sym pumps ∙ (f.over stopped).1 in cc;
  }

  -- The stream grows by what is put.
  framed_next :
      (first : Bool) (taken chunk : Bytes)
      → (first ≡ true → taken ≡ [])
      → (first ≡ false → taken ≢ [])
      → chunk ≢ []
      → stream_of vless_prefix taken ++ framed vless_prefix first chunk
        ≡ stream_of vless_prefix (taken ++ chunk)
  unfolding stream_of
  framed_next true taken chunk fresh begun h = rw (fresh refl) (stream_first vless_prefix chunk h)
  framed_next false taken chunk fresh begun h = stream_more vless_prefix taken chunk (begun refl)

  passed-IsFifo :
      (now : Now) (chunk : Bytes) (d : Downlink r) (o : Bool × Gate r × Context)
      → d.pumping ≡ true
      → chunk ≢ []
      → IsFifo d
      → IsFifo (passed r vless_prefix now chunk d o)
  unfolding passed
  passed-IsFifo now chunk d (false, gate, ctx) pumps h f =
      finished-IsFifo now (record d { gate = gate; ctx = ctx }) pumps
        (record {
          order = f.order;
          fresh = f.fresh;
          begun = f.begun;
          last = f.last;
          unmarked = f.unmarked;
          over = f.over;
        })
  passed-IsFifo now chunk d (true, gate, ctx) pumps h f =
      let part = framed vless_prefix d.first chunk in
      record {
        order =
            ap (◌++◌ d.delivered) (waiting_put d.queue part)
            ∙ sym (append_assoc d.delivered (waiting d.queue) part)
            ∙ ap (λ (b : Bytes). b ++ part) f.order
            ∙ framed_next d.first d.taken chunk f.fresh f.begun h;
        fresh = λ no. cc;
        begun = λ _. append-ne_nil d.taken chunk h;
        last = put-EndsLast d.queue (some part) (f.unmarked pumps);
        unmarked = λ _. has_end_put d.queue part ∙ f.unmarked pumps;
        over = λ stopped. let no : true ≡ false = sym pumps ∙ (f.over stopped).1 in cc;
      }

  received-IsFifo :
      (now : Now) (chunk : Bytes) (d : Downlink r)
      → d.pumping ≡ true
      → IsFifo d
      → IsFifo (received r vless_prefix now chunk d)
  unfolding received
  received-IsFifo now chunk d pumps f = elim (Bool-cases (chunk == [])) [
    | inl e ↦ rw e (finished-IsFifo now d pumps f)
    | inr e ↦ rw e (
        passed-IsFifo now chunk d _ pumps
          (λ is_nil. let no : true ≡ false = sym ((==_iff chunk []).1 is_nil) ∙ e in cc) f)
  ]

  fetched_from-IsFifo :
      (queue : List (Option Bytes)) (d : Downlink r)
      → d.queue ≡ queue
      → d.reading ≡ true
      → IsFifo d
      → IsFifo (fetched_from r vless_prefix queue d)
  unfolding fetched_from waiting has_end
  fetched_from-IsFifo [] d e reads f = f
  fetched_from-IsFifo (some chunk ∷ queue) d e reads f = record {
    order =
        append_assoc d.delivered chunk (waiting queue)
        ∙ ap (λ (q : List (Option Bytes)). d.delivered ++ waiting q) (sym e)
        ∙ f.order;
    fresh = f.fresh;
    begun = f.begun;
    last = subst EndsLast e f.last;
    unmarked = λ pumps. ap has_end (sym e) ∙ f.unmarked pumps;
    over = λ stopped. let no : true ≡ false = sym reads ∙ stopped in cc;
  }
  fetched_from-IsFifo (none ∷ queue) d e reads f =
      let empty : queue ≡ [] = subst EndsLast e f.last in
      record {
        order = ap (λ (q : List (Option Bytes)). d.delivered ++ waiting q) (sym e) ∙ f.order;
        fresh = f.fresh;
        begun = f.begun;
        last = subst EndsLast (sym empty) tt;
        unmarked = λ pumps. let no : true ≡ false = ap has_end (sym e) ∙ f.unmarked pumps in cc;
        over = λ stopped. (empty, marked_stops d.pumping d.queue (ap has_end e) f.unmarked);
      }

  Reach-IsFifo : (d : Downlink r) → Reach r vless_prefix d → IsFifo d
  unfolding fetched waiting stream_of has_end
  Reach-IsFifo d (opened gate ctx) = record {
    order = refl;
    fresh = λ _. refl;
    begun = λ no. cc;
    last = tt;
    unmarked = λ _. refl;
    over = λ no. cc;
  }
  Reach-IsFifo d (read now chunk pumps room reach) =
      received-IsFifo now chunk _ pumps (Reach-IsFifo _ reach)
  Reach-IsFifo d (failed now pumps reach) = finished-IsFifo now _ pumps (Reach-IsFifo _ reach)
  Reach-IsFifo d (sent {d = d'} reads reach) =
      fetched_from-IsFifo d'.queue d' refl reads (Reach-IsFifo _ reach)

  -- At every time, what the client has and what waits for it is, in order, the data that the pump
  -- has taken from the target, behind the two bytes that VLESS answers if it is a VLESS session.
  -- Where the answer to the client has ended, the client has all of it.
  pub fifo :
      (d : Downlink r)
      → Reach r vless_prefix d
      → (d.delivered ++ waiting d.queue ≡ stream_of vless_prefix d.taken)
        × (d.reading ≡ false → d.delivered ≡ stream_of vless_prefix d.taken)
  unfolding waiting
  fifo d reach =
      let f = Reach-IsFifo d reach in
      (
        f.order,
        λ stopped.
            sym (append-nil d.delivered)
            ∙ ap (λ (q : List (Option Bytes)). d.delivered ++ waiting q) (sym (f.over stopped).0)
            ∙ f.order,
      )
