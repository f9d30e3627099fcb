-- ===== src/Worker/Service/Agreement.antt =====
-- The tokens of a worker's instances in the driver and in the registry (worker/voidz_worker/main.py
-- and registry.py).
use voidz.Prelude.{
  ◌≡◌, ◌≢◌, refl, sym, ap, ◌∙◌, inl, inr, [], ◌∷◌, some, list_eq, nat_eq, ◌==◌, ==_iff, Bool-cases,
  Option-cases, arith,
}
use voidz.Prelude.Dict
use voidz.Prelude.Dict.{
  Dict, Distinct, get, put, get-put-some, get-remove-some, put-Distinct, remove-Distinct,
}
use voidz.Prelude.Dict.Rows.{remove_absent}
use voidz.Relay.Bytes.{Text}
use voidz.Worker.Driver.{InstanceId, LaunchSpec, Handle, Outcome, done, driver_error, other_error}
use voidz.Worker.Api.{DriverApi, Launched, known, refused, crashed}
use voidz.Worker.Registry
use voidz.Worker.Registry.{
  Entry, Rows, RegistryFile, Write, written, load, save_instance, write_text, load-save_instance,
}
use voidz.Worker.Service.{Worker, entry_of, text_or, dropped, stopped, answered}

pub text_or-ne_nil : (t other : Text) → other ≢ [] → text_or t other ≢ []
unfolding text_or
text_or-ne_nil [] other h e = h e
text_or-ne_nil (c ∷ cs) other h e = cc

pub text_or_given : (t other : Text) → t ≢ [] → text_or t other ≡ t
unfolding text_or
text_or_given [] other h = absurd (h refl)
text_or_given (c ∷ cs) other h = refl

save_instance-Distinct :
    (id : InstanceId) (entry : Entry) (file : RegistryFile)
    → Distinct (load file)
    → Distinct (load (save_instance id entry written file))
unfolding save_instance load write_text
save_instance-Distinct id entry file d = put-Distinct id entry (load file) d

-- A removal keeps a row as it is, unless it is the removed one.
pub remove_row :
    (id : InstanceId) (file : RegistryFile)
    → load (Registry.remove id written file) ≡ Dict.remove id (load file)
unfolding Registry.remove load write_text
remove_row id file = elim (Option-cases (get id (load file))) [
  | inl e ↦ rw (e, Registry.remove) (sym (remove_absent id (load file) e))
  | inr (r, e) ↦ rw (e, Registry.remove)
]

saved_token :
    {R : Type 0} (spec : LaunchSpec) (h : Handle R) (file : RegistryFile) (id : InstanceId)
    (r : Entry)
    → (get id (load file) ≡ some r → r.api_token ≢ [])
    → spec.api_token ≢ []
    → get id (load (save_instance spec.instance_id (entry_of spec h) written file)) ≡ some r
    → r.api_token ≢ []
unfolding entry_of
saved_token spec h file id r old t here =
    let at = load-save_instance spec.instance_id id (entry_of spec h) file in
    elim (Bool-cases (spec.instance_id == id)) [
      | inl same ↦
          let found : some (entry_of spec h) ≡ some r = sym (rw same at at) ∙ here in
          let is_new : (entry_of spec h) ≡ r = cc in
          λ e. t (ap (λ (x : Entry). x.api_token) is_new ∙ e)
      | inr other ↦ old (sym (rw other at at) ∙ here)
    ]

module _ {R M W : Type 0} (api : DriverApi R M W) where
  open api use {handles}

  -- Every known instance has the token that the rows say.
  abbrev pub Recorded : Rows → M → Type 0
  Recorded rows m =
      (id : InstanceId) (h : Handle R)
      → get id (handles m) ≡ some h
      → (r : Entry) × (get id rows ≡ some r) × (r.api_token ≡ h.api_token)

  -- The registry has one row for an id, with a token, and one for every known instance.
  pub record Agrees (s : Worker M) : Type 0 where
    pub recorded : Recorded (load s.registry) s.machine
    pub given : (id : InstanceId) (r : Entry) → get id (load s.registry) ≡ some r → r.api_token ≢ []
    pub distinct : Distinct (load s.registry)

  -- No more is known in the first than in the second.
  abbrev pub Fewer : M → M → Type 0
  Fewer m m' =
      (id : InstanceId) (h : Handle R) → get id (handles m) ≡ some h → get id (handles m') ≡ some h

  pub same-Fewer : (m m' : M) → handles m ≡ handles m' → Fewer m m'
  same-Fewer m m' e id h here = rw e at here

  pub less-Fewer : (m m' : M) (i : InstanceId) → handles m ≡ Dict.remove i (handles m') → Fewer m m'
  less-Fewer m m' i e id h here = (get-remove-some i id h (handles m') (rw e at here)).1

  pub Fewer-Agrees :
      (m m' : M) (file : RegistryFile)
      → Fewer m m'
      → Agrees (record { machine = m'; registry = file })
      → Agrees (record { machine = m; registry = file })
  Fewer-Agrees m m' file f a = record {
    recorded = λ id h here. a.recorded id h (f id h here);
    given = a.given;
    distinct = a.distinct;
  }

  pub stopped-Fewer : (o : Outcome Unit × M) → Fewer ((stopped api o).1) o.1
  unfolding stopped
  stopped-Fewer (done u, m) id h here = here
  stopped-Fewer (driver_error, m) id h here = here
  stopped-Fewer (other_error, m) id h here = here

  pub dropped-Fewer : (i : InstanceId) (o : Outcome Unit × M) → Fewer ((dropped api i o).1) o.1
  unfolding dropped
  dropped-Fewer i (done u, m) id h here = less-Fewer _ m i (api.handles-forget i m) id h here
  dropped-Fewer i (driver_error, m) id h here = less-Fewer _ m i (api.handles-forget i m) id h here
  dropped-Fewer i (other_error, m) id h here = here

  pub answered-Agrees :
      (spec : LaunchSpec) (file : RegistryFile) (m : M) (o : Outcome (Handle R) × M)
      → Launched handles spec m o
      → spec.api_token ≢ []
      → Agrees (record { machine = m; registry = file })
      → Agrees ((answered api spec written file o).1)
  unfolding answered entry_of
  answered-Agrees spec file m o (known h m' e same) t a =
      let entry = entry_of spec h in
      record {
        recorded = λ id g here.
            elim (get-put-some spec.instance_id id h g (handles m) (rw e at here)) [
              | inl (is_id, is_new) ↦ (
                entry,
                ground (
                  arith,
                  is_id,
                  ==_iff spec.instance_id id,
                  load-save_instance spec.instance_id id entry file,
                ),
                sym same ∙ ap (λ (x : Handle R). x.api_token) (sym is_new),
              )
              | inr (apart, old) ↦
                  let (r, there, token) = a.recorded id g old in
                  (
                    r,
                    ground (
                      arith,
                      there,
                      apart,
                      ==_iff spec.instance_id id,
                      load-save_instance spec.instance_id id entry file,
                    ),
                    token,
                  )
            ];
        given = λ id r here. saved_token spec h file id r (a.given id r) t here;
        distinct = save_instance-Distinct spec.instance_id entry file a.distinct;
      }
  answered-Agrees spec file m o (refused m' e) t a = Fewer-Agrees m' m file (same-Fewer m' m e) a
  answered-Agrees spec file m o (crashed m' e) t a = Fewer-Agrees m' m file (same-Fewer m' m e) a
