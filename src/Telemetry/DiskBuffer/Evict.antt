-- ===== src/Telemetry/DiskBuffer/Evict.antt =====
-- What evict leaves on the disk.
use mathlib.Core.Path.{subst}
use qf.Common.{
  ◌+◌, ◌-◌, ◌≤◌, ◌<◌, ◌≡◌, refl, ap, inl, inr, List, [], ◌∷◌, ◌++◌, leb, Bool-cases, arith,
}
use qf.Telemetry.DiskBuffer.{File, disk_buf_max_bytes, sorted_files, total_size, evict_from, evict}

module _ {Msg : Type 0} where
  -- The last of the files that went was one too many.
  abbrev IsNeeded : List (File Msg) → List (File Msg) → Type 0
  IsNeeded [] rest = Unit
  IsNeeded (f ∷ fs) rest = disk_buf_max_bytes < total_size (f ∷ fs ++ rest) × IsNeeded fs rest

  abbrev pub IsEviction : List (File Msg) → List (File Msg) → Type 0
  IsEviction files rest =
      (gone : List (File Msg)) × (files ≡ gone ++ rest)
      × IsNeeded gone rest
      × total_size rest ≤ disk_buf_max_bytes

  evict_from-IsEviction :
      (files : List (File Msg)) → IsEviction files (evict_from (total_size files) files)
  unfolding evict_from total_size
  evict_from-IsEviction [] = ([], refl, tt, omega arith)
  evict_from-IsEviction (f ∷ fs) =
      let same : (f.size + total_size fs) - f.size ≡ total_size fs = omega arith in
      elim (Bool-cases (leb (f.size + total_size fs) disk_buf_max_bytes)) [
        | inl e ↦ rw e ([], refl, tt, ground (arith, e))
        | inr e ↦
            rw (e, same)
              (let (gone, split, needed, fits) = evict_from-IsEviction fs in
                (
                  f ∷ gone,
                  ap (◌∷◌ f) split,
                  (
                    subst (λ (l : List (File Msg)). disk_buf_max_bytes < f.size + total_size l)
                        split (ground (arith, e)),
                    needed,
                  ),
                  fits,
                ))
      ]

  -- The files that evict removes are the oldest ones; at each of them the buffer was above its
  -- limit of 100 MB; and what is left is within the limit.
  pub evict-IsEviction : (dir : List (File Msg)) → IsEviction (sorted_files dir) (evict dir)
  unfolding evict
  evict-IsEviction dir = evict_from-IsEviction (sorted_files dir)
