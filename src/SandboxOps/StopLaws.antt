-- ===== src/SandboxOps/StopLaws.antt =====
-- What `StopSandbox` leaves stored.
use rwx.Prelude.{
  Bool, true, false, ◌||◌, Option, none, some, List, [], ◌∷◌, ◌==◌, bytes_eq, Bytes, any, map,
  if◌then◌else◌, ◌≡◌, refl, ap, ◌∙◌,
}
use rwx.Prelude.Dict.{get, get-del}
use rwx.Prelude.Traced.{◌>>=◌, ◌>>◌, return, log, on_error}
use rwx.Errors.{GoError}
use rwx.Sandbox.Storage.{SandboxSession, SandboxStorage}
use rwx.SandboxOps.World.{saved, save_refused, warned, Past, Outside, after_save, save_sessions}
use rwx.SandboxOps.Stop.{StoppedSandbox, Keyed, delete_key, stop_all, stop_selected}

-- The last thing done was a save of these sessions: they are stored, or the save was refused, which
-- left the file as it was and printed a warning.
pub data Saves (o : Outside) (t : SandboxStorage) : Past → Type 0 where
  stores : {past : Past} → o.save past t ≡ none → Saves o t (saved t ∷ past)
  warns :
      {past : Past} (e : GoError) (text : Bytes)
      → o.save past t ≡ some e
      → Saves o t (warned text ∷ save_refused t ∷ past)

abbrev pub entry : Bytes → SandboxSession → Keyed
entry key session = (key, session)

-- A key is among those of the entries.
abbrev pub has_key {ℓ} : {V : Type ℓ} → Bytes → List (Bytes × V) → Bool
has_key key entries = any (λ e. e.0 == key) entries

pub drop_either {ℓ} :
    {V : Type ℓ} (a b : Bool) (x : Option V)
    → (if b then none else if a then none else x) ≡ (if a || b then none else x)
drop_either true true x = refl
drop_either true false x = refl
drop_either false b x = refl

module _ (o : Outside) where
  stop_all-get :
      (s : SandboxStorage) (chosen : List Keyed) (h : Past) (key : Bytes)
      → get (stop_all o s chosen h).0.0.sandboxes key
        ≡ (if has_key key chosen then none else get s.sandboxes key)
  unfolding stop_all ◌>>=◌ ◌>>◌ return delete_key
  stop_all-get s [] h key = refl
  stop_all-get s ((k, session) ∷ chosen) h key =
      stop_all-get (delete_key s k) chosen _ key
      ∙ ap (λ g. if has_key key chosen then none else g) (get-del s.sandboxes k key)
      ∙ drop_either (k == key) (has_key key chosen) (get s.sandboxes key)

  stop_all-run_ids :
      (s : SandboxStorage) (chosen : List Keyed) (h : Past)
      → map (λ stopped. stopped.run_id) (stop_all o s chosen h).0.1 ≡ map (λ e. e.1.run_id) chosen
  unfolding stop_all ◌>>=◌ ◌>>◌ return
  stop_all-run_ids s [] h = refl
  stop_all-run_ids s ((k, session) ∷ chosen) h =
      ap (λ l. session.run_id ∷ l) (stop_all-run_ids (delete_key s k) chosen _)

  -- The save at the end, whatever it answers.
  saved-Saves :
      (t : SandboxStorage) (text : GoError → Bytes) (v : List StoppedSandbox) (past : Past)
      (failed : Option GoError)
      → o.save past t ≡ failed
      → Saves o t
          ((after_save failed t >>= λ failed.
              on_error failed (λ e. do log (warned (text e)); return v) (return v))
            past).1
        × (((after_save failed t >>= λ failed.
                on_error failed (λ e. do log (warned (text e)); return v) (return v))
              past).0
            ≡ v)
  unfolding after_save ◌>>=◌ ◌>>◌ on_error log return
  saved-Saves t text v past none e = (stores e, refl)
  saved-Saves t text v past (some x) e = (warns x (text x) e, refl)

  stop_selected-end :
      (s : SandboxStorage) (chosen : List Keyed) (h : Past)
      → Saves o (stop_all o s chosen h).0.0 (stop_selected o s chosen h).1
        × ((stop_selected o s chosen h).0 ≡ (stop_all o s chosen h).0.1)
  unfolding stop_selected ◌>>=◌ save_sessions
  stop_selected-end s chosen h =
      let stopped = stop_all o s chosen h in
      saved-Saves stopped.0.0 _ stopped.0.1 stopped.1 (o.save stopped.1 stopped.0.0) refl

  -- When the chosen sessions are stopped, each is reported as stopped, in order, whatever the server and
  -- SSH answer. The last step is one save, of the loaded sessions without the keys of the chosen: they
  -- are stored then, or the save is refused, the file stays as it was, and a warning is printed.
  pub stop_selected-Saves :
      (s : SandboxStorage) (chosen : List Keyed) (h : Past)
      → (map (λ stopped. stopped.run_id) (stop_selected o s chosen h).0
          ≡ map (λ e. e.1.run_id) chosen)
        × ((t : SandboxStorage) × Saves o t (stop_selected o s chosen h).1
            × ((key : Bytes)
                → get t.sandboxes key ≡ (if has_key key chosen then none else get s.sandboxes key)))
  stop_selected-Saves s chosen h =
      let end = stop_selected-end s chosen h in
      (
        ap (map (λ stopped. stopped.run_id)) end.1 ∙ stop_all-run_ids s chosen h,
        ((stop_all o s chosen h).0.0, end.0, stop_all-get s chosen h),
      )
