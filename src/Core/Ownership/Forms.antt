-- ===== src/Core/Ownership/Forms.antt =====
-- What the normal form of a path is.
use pi_persona.Base.{
  ℕ, ◌+◌, ◌≡◌, ◌≢◌, ◌∙◌, ◌⊎◌, refl, sym, ap, subst, inl, inr, true, false, [], ◌∷◌, ◌++◌, arith,
  ◌==◌, ==_iff, ltb, if◌then◌else◌, length, Text, trim, Bool-cases,
}
use pi_persona.Core.Ownership.{
  PathModule, NormalizedWritePath, normalize_write_path, slash, forward_slashes, is_windows,
  drop_last_slash,
}
use pi_persona.Core.Ownership.Inside.{IsSlashed, forward_slashes-IsSlashed, forward_slashes_unique}
use pi_persona.Core.Ownership.Windows.{IsWindowsPath, is_windows_iff}

-- The second text is the first without a slash at its end, unless there is nothing else.
abbrev DropsSlash : Text → Text → Type 0
DropsSlash s v = ((s ≡ v ++ slash) × (v ≢ [])) ⊎ ((v ≡ s) × ((u : Text) → s ≡ u ++ slash → u ≡ []))

-- The normal form of a path on its system, with slashes and without one at the end; that of a path of
-- Windows is in lower case.
abbrev pub IsFormOf : PathModule → Text → NormalizedWritePath → Type 0
IsFormOf host path n =
    (IsWindowsPath (trim path)
      × (n.windows ≡ true)
      × ((s : Text) × (v : Text) × IsSlashed (host.win32_normalize (trim path)) s
          × DropsSlash s v
          × (n.value ≡ host.to_lower v)))
    ⊎ ((¬ IsWindowsPath (trim path))
        × (n.windows ≡ false)
        × ((s : Text) × IsSlashed (host.posix_normalize (trim path)) s × DropsSlash s n.value))

dropped : Text → Text
unfolding drop_last_slash
dropped s = if ltb 1 (length s) then drop_last_slash s else s

drop_last_slash-snoc : (v : Text) → drop_last_slash (v ++ slash) ≡ v
unfolding drop_last_slash
drop_last_slash-snoc [] = refl
drop_last_slash-snoc (c ∷ []) = refl
drop_last_slash-snoc (c ∷ d ∷ v) = ap (◌∷◌ c) (drop_last_slash-snoc (d ∷ v))

length-snoc : (v : Text) → length (v ++ slash) ≡ length v + 1
length-snoc [] = refl
length-snoc (c ∷ v) = let e = length-snoc v in omega arith

single : {c : ℕ} (u : Text) → c ∷ [] ≡ u ++ slash → (c == 0x2f) ≡ false → ⊥
single [] e other = absurd (cc)
single (x ∷ []) e other = absurd (cc)
single (x ∷ y ∷ u) e other = absurd (cc)

later :
    {c d : ℕ} {s : Text} (u : Text) → c ∷ d ∷ s ≡ u ++ slash → ((w : Text) → d ∷ s ≢ w ++ slash) → ⊥
later [] e n = absurd (cc)
later (x ∷ u) e n = n u (let k = e in cc)

drop_last_slash-cases :
    (c : ℕ) (s : Text)
    → (c ∷ s ≡ drop_last_slash (c ∷ s) ++ slash)
      ⊎ ((drop_last_slash (c ∷ s) ≡ c ∷ s) × ((u : Text) → c ∷ s ≢ u ++ slash))
unfolding drop_last_slash
drop_last_slash-cases c [] = elim (Bool-cases (c == 0x2f)) [
  | inl end ↦ let e : c ≡ 0x2f = (==_iff c 0x2f).0 end in rw end (inl (ap (λ x. x ∷ []) e))
  | inr other ↦ rw other (inr (refl, λ u e. single u e other))
]
drop_last_slash-cases c (d ∷ s) = elim (drop_last_slash-cases d s) [
  | inl e ↦ inl (ap (◌∷◌ c) e)
  | inr (same, n) ↦ inr (ap (◌∷◌ c) same, λ u e. later u e n)
]

nothing : (u : Text) → [] ≡ u ++ slash → u ≡ []
nothing [] e = refl
nothing (x ∷ u) e = absurd (cc)

alone : {c : ℕ} (u : Text) → c ∷ [] ≡ u ++ slash → u ≡ []
alone [] e = refl
alone (x ∷ []) e = absurd (cc)
alone (x ∷ y ∷ u) e = absurd (cc)

dropped-DropsSlash : (s : Text) → DropsSlash s (dropped s)
unfolding dropped drop_last_slash
dropped-DropsSlash [] = inr (refl, nothing)
dropped-DropsSlash (c ∷ []) = inr (refl, alone)
dropped-DropsSlash (c ∷ d ∷ s) =
    let long : ltb 1 (length (c ∷ d ∷ s)) ≡ true = ground arith in
    rw long (elim (drop_last_slash-cases c (d ∷ s)) [
      | inl e ↦ inl (e, λ k. absurd (cc))
      | inr (same, n) ↦ inr (same, λ u e. absurd (n u e))
    ])

dropped-snoc : (v : Text) → v ≢ [] → dropped (v ++ slash) ≡ v
unfolding dropped
dropped-snoc [] n = absurd (n refl)
dropped-snoc (c ∷ v) n =
    let e = length-snoc v in
    let long : ltb 1 (length ((c ∷ v) ++ slash)) ≡ true = ground arith in
    rw long (drop_last_slash-snoc (c ∷ v))

dropped_unique : (s v : Text) → DropsSlash s v → v ≡ dropped s
dropped_unique s v h = elim h [
  | inl (e, n) ↦ rw e (sym (dropped-snoc v n))
  | inr (same, n) ↦ elim (dropped-DropsSlash s) [
    | inl (e, ne) ↦ absurd (ne (n (dropped s) e))
    | inr (k, m) ↦ same ∙ sym k
  ]
]

win32_form : PathModule → Text → NormalizedWritePath
win32_form host t = record {
  value = host.to_lower (dropped (forward_slashes (host.win32_normalize t)));
  windows = true;
}

posix_form : PathModule → Text → NormalizedWritePath
posix_form host t = record {
  value = dropped (forward_slashes (host.posix_normalize t));
  windows = false;
}

normalize-win32 :
    (host : PathModule) (path : Text)
    → is_windows (trim path) ≡ true
    → normalize_write_path host path ≡ win32_form host (trim path)
unfolding normalize_write_path win32_form dropped
normalize-win32 host path w = rw w refl

normalize-posix :
    (host : PathModule) (path : Text)
    → is_windows (trim path) ≡ false
    → normalize_write_path host path ≡ posix_form host (trim path)
unfolding normalize_write_path posix_form dropped
normalize-posix host path w = rw w refl

pub normalize_write_path-IsFormOf :
    (host : PathModule) (path : Text) → IsFormOf host path (normalize_write_path host path)
unfolding win32_form posix_form
normalize_write_path-IsFormOf host path =
    let t = trim path in
    let windows = is_windows_iff t in
    elim (Bool-cases (is_windows t)) [
      | inl w ↦
          let s = forward_slashes (host.win32_normalize t) in
          subst (IsFormOf host path) (sym (normalize-win32 host path w)) (
            inl (
              windows.0 w,
              refl,
              (
                s,
                dropped s,
                forward_slashes-IsSlashed (host.win32_normalize t),
                dropped-DropsSlash s,
                refl,
              ),
            ))
      | inr w ↦
          let s = forward_slashes (host.posix_normalize t) in
          subst (IsFormOf host path) (sym (normalize-posix host path w)) (
            inr (
              λ k. let e = windows.1 k in cc,
              refl,
              (s, forward_slashes-IsSlashed (host.posix_normalize t), dropped-DropsSlash s),
            ))
    ]

same_form : (n m : NormalizedWritePath) → n.value ≡ m.value → n.windows ≡ m.windows → n ≡ m
same_form n m e f i = record { value = e i; windows = f i }

pub normalize_write_path_unique :
    (host : PathModule) (path : Text) (n : NormalizedWritePath)
    → IsFormOf host path n
    → n ≡ normalize_write_path host path
unfolding win32_form posix_form
normalize_write_path_unique host path n h =
    let t = trim path in
    let windows = is_windows_iff t in
    elim h [
      | inl (w, b, (s, v, slashed, drops, e)) ↦
          let sames = forward_slashes_unique (host.win32_normalize t) s slashed in
          let samev = dropped_unique s v drops in
          same_form n (win32_form host t) (e ∙ ap host.to_lower (samev ∙ ap dropped sames)) b
          ∙ sym (normalize-win32 host path (windows.1 w))
      | inr (w, b, (s, slashed, drops)) ↦
          let sames = forward_slashes_unique (host.posix_normalize t) s slashed in
          let other : is_windows t ≡ false = elim (Bool-cases (is_windows t)) [
            | inl k ↦ absurd (w (windows.0 k))
            | inr k ↦ k
          ] in
          same_form n (posix_form host t) (dropped_unique s n.value drops ∙ ap dropped sames) b
          ∙ sym (normalize-posix host path other)
    ]
