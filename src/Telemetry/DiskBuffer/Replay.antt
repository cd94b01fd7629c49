-- ===== src/Telemetry/DiskBuffer/Replay.antt =====
-- What Replay sends and what it leaves.
use mathlib.Core.List.{Perm}
use qf.Common.{
  ◌≤◌, ◌≡◌, refl, ap, sym, Bool, true, false, ◌&&◌, ◌∙◌, Option, none, some, List, [], ◌∷◌, ◌++◌,
  All, inl, inr, ◌⊎◌, Bool-cases, arith, if◌then◌else◌,
}
use qf.Common.Sort.{sort_by, IsOrdered, sort_by-IsOrdered, sort_by-perm}
use qf.Telemetry.DiskBuffer.{
  File, ReplayEnv, ReplayEnd, finished, context_ended, send_failed, by_ns, sorted_files, after_read,
  replay_files, replay,
}

module _ {Msg : Type 0} where
  -- No file is older than one before it.
  abbrev pub IsChronological : List (File Msg) → Type 0
  IsChronological [] = Unit
  IsChronological (f ∷ fs) = All (λ (g : File Msg). f.ns ≤ g.ns) fs × IsChronological fs

  sorted_files-IsChronological : (dir : List (File Msg)) → IsChronological (sorted_files dir)
  unfolding sorted_files
  sorted_files-IsChronological dir =
      ordered (sort_by by_ns dir) (
        sort_by-IsOrdered by_ns (λ a b h. ground (arith, h)) (λ a b c h k. ground (arith, h, k))
          dir)
    where
      later :
          (f : File Msg) (gs : List (File Msg))
          → All (λ g. by_ns g f ≡ false) gs
          → All (λ (g : File Msg). f.ns ≤ g.ns) gs
      later f [] h = tt
      later f (g ∷ gs) h = (ground (arith, h.0), later f gs h.1)

      ordered : (fs : List (File Msg)) → IsOrdered by_ns fs → IsChronological fs
      ordered [] h = tt
      ordered (f ∷ fs) h = (later f fs h.0, ordered fs h.1)

  module _ (env : ReplayEnv Msg) (send : Msg → Bool) where
    abbrev with_message : Option Msg → List Msg → List Msg
    with_message none ms = ms
    with_message (some m) ms = m ∷ ms

    -- The messages of the files that can be read and decode.
    unfoldable pub messages : List (File Msg) → List Msg
    messages [] = []
    messages (f ∷ fs) =
        let rest = messages fs in if env.readable f then with_message f.msg rest else rest

    -- The files that cannot be read or not be removed.
    unfoldable pub stuck : List (File Msg) → List (File Msg)
    stuck [] = []
    stuck (f ∷ fs) =
        let rest = stuck fs in if env.readable f && env.removable f then rest else f ∷ rest

    -- Replay came to the end, or stopped because the context had ended or a message was not sent.
    abbrev pub StopsAt : List (File Msg) → ReplayEnd → Type 0
    StopsAt [] end = end ≡ finished
    StopsAt (f ∷ fs) end =
        ((end ≡ context_ended) × (env.ended f ≡ true))
        ⊎ ((end ≡ send_failed)
            × (env.ended f ≡ false)
            × (env.readable f ≡ true)
            × ((m : Msg) × (f.msg ≡ some m) × (send m ≡ false)))

    pub record IsRun (files left : List (File Msg)) (sent : List Msg) (end : ReplayEnd)
        : Type 0 where
      pub tried : List (File Msg)
      pub rest : List (File Msg)
      pub split : files ≡ tried ++ rest
      pub going_on : All (λ (f : File Msg). env.ended f ≡ false) tried
      pub all_messages : sent ≡ messages tried
      pub all_sent : All (λ m. send m ≡ true) sent
      pub files_left : left ≡ stuck tried ++ rest
      pub stops : StopsAt rest end

    pub record IsReplay (dir left : List (File Msg)) (sent : List Msg) (end : ReplayEnd)
        : Type 0 where
      pub files : List (File Msg)
      pub permuted : Perm files dir
      pub chronological : IsChronological files
      pub run : IsRun files left sent end

    stopped :
        (f : File Msg) (fs : List (File Msg)) (end : ReplayEnd)
        → StopsAt (f ∷ fs) end
        → IsRun (f ∷ fs) (f ∷ fs) [] end
    unfolding messages stuck
    stopped f fs end h = record {
      tried = [];
      rest = f ∷ fs;
      split = refl;
      going_on = tt;
      all_messages = refl;
      all_sent = tt;
      files_left = refl;
      stops = h;
    }

    module _ (f : File Msg) (fs left : List (File Msg)) (sent : List Msg) (end : ReplayEnd)
        (r : IsRun fs left sent end) (e : env.ended f ≡ false) where
      unread : env.readable f ≡ false → IsRun (f ∷ fs) (f ∷ left) sent end
      unfolding messages stuck
      unread k = record {
        tried = f ∷ r.tried;
        rest = r.rest;
        split = ap (◌∷◌ f) r.split;
        going_on = (e, r.going_on);
        all_messages = rw k r.all_messages;
        all_sent = r.all_sent;
        files_left = rw k (ap (◌∷◌ f) r.files_left);
        stops = r.stops;
      }

      removed :
          env.readable f ≡ true
          → (if env.removable f then left else f ∷ left) ≡ stuck (f ∷ r.tried) ++ r.rest
      unfolding stuck
      removed k = elim (Bool-cases (env.removable f)) [
        | inl p ↦ rw (k, p) r.files_left
        | inr p ↦ rw (k, p) (ap (◌∷◌ f) r.files_left)
      ]

      -- The file is tried with its message, if it decodes.
      read :
          (o : Option Msg)
          → f.msg ≡ o
          → env.readable f ≡ true
          → All (λ m. send m ≡ true) (with_message o [])
          → IsRun (f ∷ fs) (if env.removable f then left else f ∷ left) (with_message o sent) end
      unfolding messages
      read o n k sends = record {
        tried = f ∷ r.tried;
        rest = r.rest;
        split = ap (◌∷◌ f) r.split;
        going_on = (e, r.going_on);
        all_messages = rw k (
            ap (with_message o) r.all_messages
            ∙ ap (λ (x : Option Msg). with_message x (messages r.tried)) (sym n));
        all_sent = with_sent o sends;
        files_left = removed k;
        stops = r.stops;
      }
        where
          with_sent :
              (x : Option Msg)
              → All (λ m. send m ≡ true) (with_message x [])
              → All (λ m. send m ≡ true) (with_message x sent)
          with_sent none h = r.all_sent
          with_sent (some m) h = (h.0, r.all_sent)

      after_read-IsRun :
          (o : Option Msg)
          → f.msg ≡ o
          → env.readable f ≡ true
          → IsRun
              (f ∷ fs)
              (after_read env send f fs o (left, sent, end)).0
              (after_read env send f fs o (left, sent, end)).1
              (after_read env send f fs o (left, sent, end)).2
      after_read-IsRun none n k = read none n k tt
      after_read-IsRun (some m) n k = elim (Bool-cases (send m)) [
        | inl s ↦ rw s (read (some m) n k (s, tt))
        | inr s ↦ rw s (stopped f fs send_failed (inr (refl, e, k, (m, n, s))))
      ]

    replay_files-IsRun :
        (files : List (File Msg))
        → IsRun files
            (replay_files env send files).0
            (replay_files env send files).1
            (replay_files env send files).2
    unfolding replay_files messages stuck
    replay_files-IsRun [] = record {
      tried = [];
      rest = [];
      split = refl;
      going_on = tt;
      all_messages = refl;
      all_sent = tt;
      files_left = refl;
      stops = refl;
    }
    replay_files-IsRun (f ∷ fs) =
        let (left, sent, end) = replay_files env send fs in
        let r : IsRun fs left sent end = replay_files-IsRun fs in
        elim (Bool-cases (env.ended f)) [
          | inl e ↦ rw e (stopped f fs context_ended (inl (refl, e)))
          | inr e ↦ elim (Bool-cases (env.readable f)) [
            | inr k ↦ rw (e, k) (unread f fs left sent end r e k)
            | inl k ↦ rw (e, k) (after_read-IsRun f fs left sent end r e f.msg refl k)
          ]
        ]

    -- Replay goes through the files of the directory from the oldest on. Up to where it stops it
    -- sends the message of each file that can be read and decodes, once and in that order, and
    -- removes the files, those that do not decode too; a file that cannot be read, or cannot be
    -- removed, stays. It stops at the first file before which the context has ended, or whose
    -- message is not sent, and leaves this and all later files; else it comes to the end.
    pub replay-IsReplay :
        (dir : List (File Msg))
        → IsReplay dir (replay env send dir).0 (replay env send dir).1 (replay env send dir).2
    unfolding replay sorted_files
    replay-IsReplay dir = record {
      files = sorted_files dir;
      permuted = sort_by-perm by_ns dir;
      chronological = sorted_files-IsChronological dir;
      run = replay_files-IsRun (sorted_files dir);
    }
