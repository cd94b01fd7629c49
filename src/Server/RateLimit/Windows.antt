-- ===== src/Server/RateLimit/Windows.antt =====
-- How many logins an address gets.
use qf.Common.{
  ℕ, ◌+◌, ◌≤◌, ◌<◌, ◌≡◌, Bool, true, false, ◌&&◌, none, some, List, [], ◌∷◌, Text, text_eq,
  text_eq_iff, arith, leb, leb→le, leb→gt, ◌↔◌, if◌then◌else◌, inl, inr, ◌∙◌, Bool-cases, All,
  Option-cases,
}
use qf.Server.RateLimit.{
  Windows, LoginWindow, window_of, prune, remove_window, set_window, has_expired, allow,
}

window_of-remove_window :
    (ip j : Text) (m : Windows)
    → window_of j (remove_window ip m) ≡ (if text_eq ip j then none else window_of j m)
unfolding window_of remove_window
window_of-remove_window ip j [] = ground arith
window_of-remove_window ip j ((i, w) ∷ m) =
    ground
      (arith, text_eq_iff ip j, text_eq_iff i ip, text_eq_iff i j, window_of-remove_window ip j m)

window_of-set_window :
    (ip j : Text) (w : LoginWindow) (m : Windows)
    → window_of j (set_window ip w m) ≡ (if text_eq ip j then some w else window_of j m)
unfolding window_of
window_of-set_window ip j w m = ground (arith, window_of-remove_window ip j m)

window_of-prune :
    (ip : Text) (now : ℕ) (m : Windows) (w : LoginWindow)
    → window_of ip m ≡ some w
    → has_expired now w ≡ false
    → window_of ip (prune now m) ≡ some w
unfolding window_of prune
window_of-prune ip now [] w h live = cc
window_of-prune ip now ((i, v) ∷ m) w h live = ground (arith, window_of-prune ip now m w)

-- A login is refused exactly when its address has a window that has not expired and holds five
-- attempts; a refusal changes no window.
pub allow_refuses_iff :
    (ip : Text) (now : ℕ) (m : Windows)
    → ((allow ip now m).1 ≡ false) ↔ (
        (w : LoginWindow) × (window_of ip m ≡ some w)
        × (has_expired now w ≡ false)
        × (5 ≤ w.count)
        × ((allow ip now m).0 ≡ m))
unfolding allow
allow_refuses_iff ip now m = (refused, λ (w, e, live, full, _). ground arith)
  where
    refused :
        (allow ip now m).1 ≡ false
        → (w : LoginWindow) × (window_of ip m ≡ some w)
          × (has_expired now w ≡ false)
          × (5 ≤ w.count)
          × ((allow ip now m).0 ≡ m)
    refused h = elim (Option-cases (window_of ip m)) [
      | inl p ↦ let bad = rw (p, allow) at h in cc
      | inr (w, p) ↦ elim (Bool-cases (has_expired now w)) [
        | inl q ↦ let bad = rw (p, allow, q) at h in cc
        | inr q ↦ elim (Bool-cases (leb 5 w.count)) [
          | inl r ↦ (w, p, q, leb→le _ _ r, rw (p, allow, q, r))
          | inr r ↦ let bad = rw (p, allow, q, r) at h in cc
        ]
      ]
    ]

-- One attempt by any address leaves a window that is alive, with the attempt counted if it is the
-- address's own and was allowed.
abbrev counted : Text → Text → Bool → ℕ → ℕ
counted ip j allowed n = if text_eq j ip && allowed then n + 1 else n

window_of-allow :
    (ip j : Text) (now : ℕ) (m : Windows) (w : LoginWindow)
    → window_of ip m ≡ some w
    → has_expired now w ≡ false
    → window_of ip (allow j now m).0
      ≡ some (record w { count = counted ip j (allow j now m).1 w.count })
unfolding allow
window_of-allow ip j now m w h live = elim (Bool-cases (text_eq j ip)) [
  | inl e ↦
      let same = (text_eq_iff j ip).0 e in
      let here : window_of j m ≡ some w = rw same h in
      elim (Bool-cases (leb 5 w.count)) [
        | inl full ↦ rw (e, here, allow, live, full) h
        | inr free ↦
            rw (e, here, allow, live, free)
              (window_of-set_window j ip (record w { count = w.count + 1 }) m ∙ rw e)
      ]
  | inr e ↦ elim (Option-cases (window_of j m)) [
    | inl p ↦ rw (e, p, allow) (other j (record { count = 1; start = now }) e)
    | inr (v, p) ↦ elim (Bool-cases (has_expired now v)) [
      | inl x ↦ rw (e, p, allow, x) (other j (record { count = 1; start = now }) e)
      | inr x ↦ elim (Bool-cases (leb 5 v.count)) [
        | inl full ↦ rw (e, p, allow, x, full) h
        | inr free ↦
            rw (e, p, allow, x, free)
              (window_of-set_window j ip (record v { count = v.count + 1 }) m ∙ rw e h)
      ]
    ]
  ]
]
  where
    other :
        (j : Text) (v : LoginWindow)
        → text_eq j ip ≡ false
        → window_of ip (set_window j v (prune now m)) ≡ some w
    other j v e =
        window_of-set_window j ip v (prune now m) ∙ rw e (window_of-prune ip now m w h live)

-- How many of the attempts, each by an address at a time, are allowed to `ip`.
abbrev pub allowed_to : Text → List (Text × ℕ) → Windows → ℕ
allowed_to ip [] m = 0
allowed_to ip ((j, now) ∷ attempts) m =
    let (m', done) = allow j now m in
    let rest = allowed_to ip attempts m' in if text_eq j ip && done then rest + 1 else rest

allow_live :
    (ip : Text) (now : ℕ) (m : Windows) (w : LoginWindow)
    → window_of ip m ≡ some w
    → has_expired now w ≡ false
    → (allow ip now m).1 ≡ true
    → w.count < 5
unfolding allow
allow_live ip now m w h live done = elim (Bool-cases (leb 5 w.count)) [
  | inl full ↦ let bad = rw (h, allow, live, full) at done in cc
  | inr free ↦ leb→gt _ _ free
]

counted-le :
    (ip j : Text) (now : ℕ) (m : Windows) (w : LoginWindow)
    → window_of ip m ≡ some w
    → w.count ≤ 5
    → has_expired now w ≡ false
    → counted ip j (allow j now m).1 w.count ≤ 5
counted-le ip j now m w h le live = elim (Bool-cases (text_eq j ip)) [
  | inr e ↦ rw e le
  | inl e ↦ elim (Bool-cases (allow j now m).1) [
    | inr d ↦ rw (e, d) le
    | inl d ↦
        let same = (text_eq_iff j ip).0 e in
        let lt = allow_live j now m w (rw same h) live d in rw (e, d) (omega (arith, lt))
  ]
]

-- From a window of an address on, no sequence of attempts by any addresses within the minute that
-- the window lasts gets more than five logins for it, those in the window counted.
pub allowed_to-le :
    (ip : Text) (attempts : List (Text × ℕ)) (m : Windows) (w : LoginWindow)
    → window_of ip m ≡ some w
    → w.count ≤ 5
    → All (λ (a : Text × ℕ). has_expired a.1 w ≡ false) attempts
    → w.count + allowed_to ip attempts m ≤ 5
allowed_to-le ip [] m w h le live = omega (arith, le)
allowed_to-le ip ((j, now) ∷ attempts) m w h le live =
    let n = counted ip j (allow j now m).1 w.count in
    let ih =
      allowed_to-le ip attempts (allow j now m).0 (record w { count = n })
        (window_of-allow ip j now m w h live.0) (counted-le ip j now m w h le live.0) live.1 in
    elim (Bool-cases (text_eq j ip && (allow j now m).1)) [
      | inl e ↦ rw e (let k = rw e at ih in omega (arith, k))
      | inr e ↦ rw e (let k = rw e at ih in omega (arith, k))
    ]
