-- ===== src/Worker/Service/Relaunch.antt =====
-- `_relaunch_known_instances` of worker/voidz_worker/main.py after a restart of the worker.
use voidz.Prelude.{
  ◌≡◌, ◌≢◌, sym, ap, ◌∙◌, ◌⊎◌, inl, inr, true, false, [], ◌∷◌, none, some, list_eq, nat_eq, ◌==◌,
  ==_iff, Bool-cases, Option-cases, All, arith, if◌then◌else◌,
}
use voidz.Prelude.Dict.{get, get-put, get-put-some}
use mathlib.Core.Path.{subst}
use voidz.Prelude.Dict.Rows.{get-row}
use voidz.Relay.Bytes.{Text}
use voidz.Worker.Driver.{InstanceId, LaunchSpec, Handle, Outcome, done}
use voidz.Worker.Api.{DriverApi, Launched, known, refused, crashed}
use voidz.Worker.Registry.{Entry, Rows, load}
use voidz.Worker.Service.{
  Worker, relaunch_spec, is_known, relaunch_row, relaunch_all, relaunch_known_instances,
}
use voidz.Worker.Service.Agreement.{Recorded, Agrees, text_or_given}

module _ {R M W : Type 0} (api : DriverApi R M W) where
  open api use {handles}

  Launched-Recorded :
      (rows : Rows) (id : InstanceId) (entry : Entry) (drawn : Text) (m : M)
      (o : Outcome (Handle R) × M)
      → Launched handles (relaunch_spec id entry drawn) m o
      → get id rows ≡ some entry
      → entry.api_token ≢ []
      → Recorded api rows m
      → Recorded api rows o.1
  unfolding relaunch_spec
  Launched-Recorded rows id entry drawn m o (known h m' e same) row t r = λ i g here.
      elim (get-put-some id i h g (handles m) (rw e at here)) [
        | inl (is_id, is_new) ↦ (
          entry,
          subst (λ (x : InstanceId). get x rows ≡ some entry) (sym is_id) row,
          sym (text_or_given entry.api_token drawn t)
              ∙ sym same
              ∙ ap (λ (x : Handle R). x.api_token) (sym is_new),
        )
        | inr (apart, old) ↦ r i g old
      ]
  Launched-Recorded rows id entry drawn m o (refused m' e) row t r =
      λ i g here. r i g (rw e at here)
  Launched-Recorded rows id entry drawn m o (crashed m' e) row t r =
      λ i g here. r i g (rw e at here)

  relaunch_all-Recorded :
      (rows part : Rows) (at_row : InstanceId → Text × W) (m : M)
      → All
          (λ (row : InstanceId × Entry). (get row.0 rows ≡ some row.1) × (row.1.api_token ≢ []))
          part
      → Recorded api rows m
      → Recorded api rows (relaunch_all api at_row part m)
  unfolding relaunch_all relaunch_row
  relaunch_all-Recorded rows [] at_row m u r = r
  relaunch_all-Recorded rows ((id, entry) ∷ part) at_row m (here, u) r =
      relaunch_all-Recorded rows part at_row _ u (elim (Bool-cases (is_known api id m)) [
        | inl e ↦ rw e r
        | inr e ↦ rw e (
            Launched-Recorded rows id entry (at_row id).0 m _
              (api.launch-Launched (relaunch_spec id entry (at_row id).0) (at_row id).1 m) here.0
              here.1 r)
      ])

  given_rows :
      (rows part : Rows)
      → ((id : InstanceId) (r : Entry) → get id rows ≡ some r → r.api_token ≢ [])
      → All (λ (row : InstanceId × Entry). get row.0 rows ≡ some row.1) part
      → All
          (λ (row : InstanceId × Entry). (get row.0 rows ≡ some row.1) × (row.1.api_token ≢ []))
          part
  given_rows rows [] g u = tt
  given_rows rows ((id, entry) ∷ part) g u = ((u.0, g id entry u.0), given_rows rows part g u.1)

  pub relaunch_row-Agrees :
      (id : InstanceId) (entry : Entry) (drawn : Text) (w : W) (s : Worker M)
      → get id (load s.registry) ≡ some entry
      → Agrees api s
      → Agrees api (record s { machine = relaunch_row api (id, entry) drawn w s.machine })
  unfolding relaunch_row relaunch_all
  relaunch_row-Agrees id entry drawn w s there a = record {
    recorded =
        relaunch_all-Recorded (load s.registry) ((id, entry) ∷ []) (λ _. (drawn, w)) s.machine
          ((there, a.given id entry there), tt) a.recorded;
    given = a.given;
    distinct = a.distinct;
  }

  pub reboot-Agrees :
      (m : M) (at_row : InstanceId → Text × W) (s : Worker M)
      → handles m ≡ []
      → Agrees api s
      → Agrees api (relaunch_known_instances api at_row (record s { machine = m }))
  unfolding relaunch_known_instances get
  reboot-Agrees m at_row s e a = record {
    recorded =
        relaunch_all-Recorded (load s.registry) (load s.registry) at_row m
          (given_rows (load s.registry) (load s.registry) a.given
            (get-row (load s.registry) a.distinct))
          (λ id h here. let no : none ≡ some h = rw e at here in cc);
    given = a.given;
    distinct = a.distinct;
  }

  stays_known :
      (id : InstanceId) (spec : LaunchSpec) (m : M) (o : Outcome (Handle R) × M)
      → Launched handles spec m o
      → is_known api id m ≡ true
      → is_known api id o.1 ≡ true
  unfolding is_known
  stays_known id spec m o (known h m' e same) k =
      rw (e, is_known) (ground (arith, k, get-put spec.instance_id id h (handles m)))
  stays_known id spec m o (refused m' e) k = rw (e, is_known) k
  stays_known id spec m o (crashed m' e) k = rw (e, is_known) k

  relaunch_all_known :
      (id : InstanceId) (part : Rows) (at_row : InstanceId → Text × W) (m : M)
      → is_known api id m ≡ true
      → is_known api id (relaunch_all api at_row part m) ≡ true
  unfolding relaunch_all relaunch_row
  relaunch_all_known id [] at_row m k = k
  relaunch_all_known id ((i, entry) ∷ part) at_row m k =
      relaunch_all_known id part at_row _ (elim (Bool-cases (is_known api i m)) [
        | inl e ↦ rw e k
        | inr e ↦ rw e (
            stays_known id _ m _
              (api.launch-Launched (relaunch_spec i entry (at_row i).0) (at_row i).1 m) k)
      ])

  -- The machine when the loop comes to the row of an instance: the rows before it are done.
  unfoldable pub machine_at : InstanceId → (InstanceId → Text × W) → Rows → M → M
  machine_at id at_row [] m = m
  machine_at id at_row ((i, entry) ∷ part) m =
      let later =
        machine_at id at_row part (relaunch_row api (i, entry) (at_row i).0 (at_row i).1 m) in
      if i == id then m else later

  -- The launch of a row on this machine does not succeed.
  abbrev pub Fails : InstanceId → Entry → Text × W → M → Type 0
  Fails id entry (drawn, w) m =
      (h : Handle R) → (api.launch (relaunch_spec id entry drawn) w m).0 ≢ done h

  Launched-known :
      (id : InstanceId) (entry : Entry) (drawn : Text) (m : M) (o : Outcome (Handle R) × M)
      → Launched handles (relaunch_spec id entry drawn) m o
      → (is_known api id o.1 ≡ true) ⊎ ((h : Handle R) → o.0 ≢ done h)
  unfolding is_known relaunch_spec
  Launched-known id entry drawn m o (known h m' e same) =
      inl (rw (e, is_known) (ground (arith, ==_iff id id, get-put id id h (handles m))))
  Launched-known id entry drawn m o (refused m' e) = inr (λ h no. cc)
  Launched-known id entry drawn m o (crashed m' e) = inr (λ h no. cc)

  row_known :
      (id i : InstanceId) (entry entry' : Entry) (at_row : InstanceId → Text × W) (m : M)
      → i ≡ id
      → entry' ≡ entry
      → (is_known api id (relaunch_row api (i, entry') (at_row i).0 (at_row i).1 m) ≡ true)
        ⊎ Fails id entry (at_row id) m
  unfolding relaunch_row
  row_known id i entry entry' at_row m p q = rw p (
      rw q (elim (Bool-cases (is_known api id m)) [
        | inl e ↦ rw e (inl e)
        | inr e ↦
            rw e
              (elim (Launched-known id entry (at_row id).0 m _
                (api.launch-Launched (relaunch_spec id entry (at_row id).0) (at_row id).1 m)) [
                  | inl k ↦ inl k
                  | inr bad ↦ inr bad
                ])
      ]))

  relaunch_all_each :
      (id : InstanceId) (entry : Entry) (part : Rows) (at_row : InstanceId → Text × W) (m : M)
      → get id part ≡ some entry
      → (is_known api id (relaunch_all api at_row part m) ≡ true)
        ⊎ Fails id entry (at_row id) (machine_at id at_row part m)
  unfolding relaunch_all get machine_at
  relaunch_all_each id entry [] at_row m here = cc
  relaunch_all_each id entry ((i, e') ∷ part) at_row m here = elim (Bool-cases (i == id)) [
    | inl same ↦
        let found : some e' ≡ some entry = rw (same, get) at here in
        elim (row_known id i entry e' at_row m ((==_iff i id).0 same) (cc)) [
          | inl k ↦ inl (relaunch_all_known id part at_row _ k)
          | inr bad ↦ inr (rw same bad)
        ]
    | inr apart ↦
        elim (relaunch_all_each id entry part at_row
          (relaunch_row api (i, e') (at_row i).0 (at_row i).1 m) (rw (apart, get) at here)) [
            | inl k ↦ inl k
            | inr bad ↦ inr (rw apart bad)
          ]
  ]

  known_token :
      (rows : Rows) (id : InstanceId) (entry : Entry) (m : M)
      → get id rows ≡ some entry
      → Recorded api rows m
      → is_known api id m ≡ true
      → (h : Handle R) × (get id (handles m) ≡ some h) × (h.api_token ≡ entry.api_token)
  unfolding is_known
  known_token rows id entry m row r k = elim (Option-cases (get id (handles m))) [
    | inl e ↦ let no : false ≡ true = rw (e, is_known) at k in cc
    | inr (h, e) ↦
        let (r', there, token) = r id h e in
        let same : r' ≡ entry = cc in (h, e, sym token ∙ ap (λ (x : Entry). x.api_token) same)
  ]

  -- If registry and driver agreed before a restart of the worker, in which its driver comes to know
  -- nothing, and with no request until the relaunch is done: every instance of the registry runs
  -- again under the token of its row, unless the driver's launch with the row's parameters, on the
  -- machine as the rows before it left it, did not succeed.
  pub relaunch_restores :
      (m : M) (at_row : InstanceId → Text × W) (s : Worker M) (id : InstanceId) (entry : Entry)
      → handles m ≡ []
      → Agrees api s
      → get id (load s.registry) ≡ some entry
      → ((h : Handle R) × (get id
              (handles (relaunch_known_instances api at_row (record s { machine = m })).machine)
            ≡ some h)
          × (h.api_token ≡ entry.api_token))
        ⊎ Fails id entry (at_row id) (machine_at id at_row (load s.registry) m)
  unfolding relaunch_known_instances
  relaunch_restores m at_row s id entry e a row =
      elim (relaunch_all_each id entry (load s.registry) at_row m row) [
        | inl k ↦ inl (
            known_token (load s.registry) id entry _ row ((reboot-Agrees m at_row s e a).recorded)
              k)
        | inr bad ↦ inr bad
      ]
