-- ===== src/Api/Revert.antt =====
-- What a return to a version does not do.
use qf.Common.{◌≡◌, refl, List}
use qf.Common.Exec.{Exec}
use qf.Policy.{Codec}
use qf.Store.{Database, Store}
use qf.Store.Keeps.{Keeps, keeps_rules}
use qf.Api.{Request, Server, Task, on_store}
use qf.Api.Versions.{Formats, revert_version}

pending_of : Server → List Task
pending_of s = s.pending

Keeps-on_store :
    {E A : Type 0} {R : List Task → Type 0} (m : Exec Store E A) → Keeps pending_of R (on_store m)
unfolding pending_of on_store
Keeps-on_store m = record { at = λ s h. h }

-- A return to an earlier version starts no cascade, whatever it answers: no host is sent the
-- policy's restored rules by it.
pub pending-revert_version :
    (codec : Codec) (db : Database) (f : Formats) (req : Request (Unit {0})) (s : Server)
    → (revert_version codec db f req s).0.pending ≡ s.pending
unfolding revert_version pending_of
pending-revert_version codec db f req s =
    let kept : Keeps pending_of (λ ts. ts ≡ s.pending) (revert_version codec db f req) =
      search (keeps_rules, Keeps-on_store) depth 16 in
    kept.at s refl
