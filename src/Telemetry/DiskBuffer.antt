-- ===== src/Telemetry/DiskBuffer.antt =====
-- agent/internal/grpcclient/diskbuffer.go: messages that wait on disk. The directory is a list of
-- files; a file has the time of its name, its size and its contents, where they decode.
pub mod Evict
pub mod Replay
use qf.Common.{
  ℕ, ◌+◌, ◌-◌, Bool, true, false, not, Option, none, some, List, [], ◌∷◌, ltb, leb, ◌==◌,
  if◌then◌else◌,
}
use qf.Common.Sort.{sort_by}

abbrev pub disk_buf_max_bytes : ℕ
disk_buf_max_bytes = 104857600

module _ (Msg : Type 0) where
  -- `msg` is none for a corrupt file.
  pub record File : Type 0 where
    pub ns : ℕ
    pub size : ℕ
    pub msg : Option Msg

  -- What Replay meets at each file: whether the context has ended before it, whether it can be read,
  -- and whether it can be removed.
  pub record ReplayEnv : Type 0 where
    pub ended : File → Bool
    pub readable : File → Bool
    pub removable : File → Bool

-- The results of Replay: nil, ctx.Err() and the error of sendFn.
pub data ReplayEnd : Type 0 where
  finished context_ended send_failed : ReplayEnd

module _ {Msg : Type 0} where
  abbrev pub by_ns : File Msg → File Msg → Bool
  by_ns a b = ltb a.ns b.ns

  unfoldable pub sorted_files : List (File Msg) → List (File Msg)
  unfolding sort_by
  sorted_files dir = sort_by by_ns dir

  unfoldable pub total_size : List (File Msg) → ℕ
  total_size [] = 0
  total_size (f ∷ fs) = f.size + total_size fs

  -- The loop of evict over the sorted files, while the total is above the limit. What it leaves is
  -- the directory.
  unfoldable pub evict_from : ℕ → List (File Msg) → List (File Msg)
  evict_from total [] = []
  evict_from total (f ∷ fs) =
      let rest = evict_from (total - f.size) fs in
      if leb total disk_buf_max_bytes then f ∷ fs else rest

  unfoldable pub evict : List (File Msg) → List (File Msg)
  unfolding sorted_files total_size evict_from
  evict dir = evict_from (total_size (sorted_files dir)) (sorted_files dir)

  -- os.WriteFile: a file of the same name is replaced.
  unfoldable pub write_file : File Msg → List (File Msg) → List (File Msg)
  write_file f [] = f ∷ []
  write_file f (g ∷ gs) = let rest = write_file f gs in if g.ns == f.ns then f ∷ gs else g ∷ rest

  -- Write at time `ns` of a message of `size` bytes, where the disk takes it.
  unfoldable pub write : ℕ → ℕ → Msg → List (File Msg) → List (File Msg)
  unfolding write_file evict
  write ns size msg dir = evict (write_file (record { ns = ns; size = size; msg = some msg }) dir)

  abbrev remove : ReplayEnv Msg → File Msg → List (File Msg) → List (File Msg)
  remove env f left = if env.removable f then left else f ∷ left

  -- A file that has been read, before what follows.
  abbrev pub after_read :
      ReplayEnv Msg
      → (Msg → Bool)
      → File Msg
      → List (File Msg)
      → Option Msg
      → List (File Msg) × List Msg × ReplayEnd
      → List (File Msg) × List Msg × ReplayEnd
  after_read env send f fs none (left, sent, end) = (remove env f left, sent, end)
  after_read env send f fs (some m) (left, sent, end) =
      if send m then (remove env f left, m ∷ sent, end) else (f ∷ fs, [], send_failed)

  -- The loop of Replay: the files left, the messages sent, and how it ends. `send` says of each
  -- message whether it is sent.
  unfoldable pub replay_files :
      ReplayEnv Msg → (Msg → Bool) → List (File Msg) → List (File Msg) × List Msg × ReplayEnd
  replay_files env send [] = ([], [], finished)
  replay_files env send (f ∷ fs) =
      let (left, sent, end) = replay_files env send fs in
      if env.ended f
      then (f ∷ fs, [], context_ended)
      else if not (env.readable f)
      then (f ∷ left, sent, end)
      else after_read env send f fs f.msg (left, sent, end)

  unfoldable pub replay :
      ReplayEnv Msg → (Msg → Bool) → List (File Msg) → List (File Msg) × List Msg × ReplayEnd
  unfolding sorted_files replay_files
  replay env send dir = replay_files env send (sorted_files dir)
