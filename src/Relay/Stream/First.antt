-- ===== src/Relay/Stream/First.antt =====
-- The upload of a session that is new: `stream_up_upload` of core/voidz_core/relay/xhttp.py from
-- the chunk that names the target.
use voidz.Prelude.{◌≡◌, String, ◌⊎◌, [], ◌++◌, Option, none, some, list_eq, nat_eq}
use voidz.Prelude.Result.{Result, ok}
use voidz.Core.Store.{LinkStore}
use voidz.Relay.Bytes.{Bytes, Text}
use voidz.Relay.Gate.{Rates, Gate}
use voidz.Relay.Trojan.{Digest}
use voidz.Relay.Opening.{Target, target_of}
use voidz.Relay.Stream.{Arrival, complete, Step}

module _ (r : Rates) (digest : Digest) (decode : Bytes → Text) (uuid : String) where
  -- What was written to the target, after chunks with a first one that is not empty: what its header
  -- is followed by, and a part at the head of the chunks behind it; all of them, if nothing was
  -- raised.
  pub record Delivered (body : Bytes) (sent : Option Bytes) (returns : Type 0) : Type 0 where
    pub first : Arrival
    pub rest : Bytes
    pub links : LinkStore
    pub target : Target
    pub pre : Bytes
    pub post : Bytes
    pub named : target_of digest decode first.now.time uuid first.body links ≡ ok target
    pub written : sent ≡ some (target.payload ++ pre)
    pub head : pre ++ post ≡ rest
    pub whole : first.body ++ rest ≡ body
    pub complete : returns → post ≡ []

  -- Nothing was written, or what was is as it should be.
  abbrev pub Begins : Bytes → Option Bytes → Type 0 → Type 0
  Begins body sent returns = ((sent ≡ none) × (returns → body ≡ [])) ⊎ Delivered body sent returns

  -- A first chunk opens the connection, and then it has raised nothing.
  abbrev Opens : Arrival → Step r digest decode uuid → Type 0
  Opens a st =
      ((st.1.sent ≡ none) × (st.0 ≡ ok tt → a.body ≡ []))
      ⊎ ((links : LinkStore) × (target : Target) × (target_of digest decode a.now.time uuid a.body
              links
            ≡ ok target)
          × (st.1.sent ≡ some target.payload))
