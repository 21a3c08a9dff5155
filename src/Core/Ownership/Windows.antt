-- ===== src/Core/Ownership/Windows.antt =====
-- When a path counts as one of Windows.
use pi_persona.Base.{
  ℕ, ◌≤◌, ◌≡◌, ◌↔◌, ◌⊎◌, refl, sym, subst, inl, inr, Bool, true, false, ◌||◌, [], ◌∷◌, arith, ◌==◌,
  ==_iff, any, Text, starts_with, IsAmong, Bool-cases, &&-eq-true,
}
use pi_persona.Core.Ownership.{has_drive, is_windows}

abbrev IsLetter : ℕ → Type 0
IsLetter c = ((b'A' ≤ c) × (c ≤ b'Z')) ⊎ ((b'a' ≤ c) × (c ≤ b'z'))

-- A path of Windows has a backslash, or begins with the letter of a drive.
abbrev pub IsWindowsPath : Text → Type 0
IsWindowsPath t =
    IsAmong 0x5c t
    ⊎ ((letter : ℕ) × (after : ℕ) × (rest : Text) × (t ≡ letter ∷ b':' ∷ after ∷ rest)
        × IsLetter letter
        × ((after ≡ 0x5c) ⊎ (after ≡ 0x2f)))

backslash_iff : (t : Text) → (any (λ c. c == 0x5c) t ≡ true) ↔ IsAmong 0x5c t
backslash_iff [] = (λ h. absurd (cc), λ h. absurd h)
backslash_iff (c ∷ t) = ground (arith, backslash_iff t)

has_drive_at :
    (a b c : ℕ) (t : Text)
    → (has_drive (a ∷ b ∷ c ∷ t) ≡ true) ↔ (IsLetter a × (b ≡ b':') × ((c ≡ 0x5c) ⊎ (c ≡ 0x2f)))
unfolding has_drive
has_drive_at a b c t = ground arith

or_middle : (p q r : Bool) → q ≡ true → (p || q || r) ≡ true
or_middle p q r h = ground (arith, h)

third_of : (p q r : Bool) → p ≡ false → q ≡ false → (p || q || r) ≡ true → r ≡ true
third_of p q r h k e = ground (arith, h, k, e)

begins :
    (a b c : ℕ) (t : Text)
    → any (λ x. x == 0x5c) (a ∷ b ∷ c ∷ t) ≡ false
    → has_drive (a ∷ b ∷ c ∷ t) ≡ false
    → is_windows (a ∷ b ∷ c ∷ t) ≡ true
    → a ≡ 0x5c
unfolding is_windows starts_with
begins a b c t k m h =
    let e = third_of _ _ _ k m h in
    let f : (0x5c == a) ≡ true = (&&-eq-true (0x5c == a) _ e).0 in sym ((==_iff 0x5c a).0 f)

pub is_windows_iff : (t : Text) → (is_windows t ≡ true) ↔ IsWindowsPath t
unfolding is_windows has_drive starts_with
is_windows_iff [] =
    (λ h. absurd (cc), λ h. elim h [ inl k ↦ absurd k | inr (a, c, r, e, _, _) ↦ absurd (cc) ])
is_windows_iff (a ∷ []) =
    let back = backslash_iff (a ∷ []) in
    (
      λ h. inl (back.0 (ground (arith, h))),
      λ q. elim q [ inl k ↦ let e = back.1 k in rw e refl | inr (x, c, r, e, _, _) ↦ absurd (cc) ],
    )
is_windows_iff (a ∷ b ∷ []) =
    let back = backslash_iff (a ∷ b ∷ []) in
    (
      λ h. inl (back.0 (ground (arith, h))),
      λ q. elim q [ inl k ↦ let e = back.1 k in rw e refl | inr (x, c, r, e, _, _) ↦ absurd (cc) ],
    )
is_windows_iff (a ∷ b ∷ c ∷ t) =
    let back = backslash_iff (a ∷ b ∷ c ∷ t) in
    let drive = has_drive_at a b c t in
    (
      λ h. elim (Bool-cases (any (λ x. x == 0x5c) (a ∷ b ∷ c ∷ t))) [
        | inl k ↦ inl (back.0 k)
        | inr k ↦ elim (Bool-cases (has_drive (a ∷ b ∷ c ∷ t))) [
          | inl m ↦ let (l, e, f) = drive.0 m in inr (a, c, t, rw e refl, l, f)
          | inr m ↦ let e : a ≡ 0x5c = begins a b c t k m h in inl (inl e)
        ]
      ],
      λ q. elim q [
        | inl k ↦ let e = back.1 k in rw e refl
        | inr (x, y, r, e, l, f) ↦
            let lower : IsLetter a = let p : a ≡ x = cc in subst IsLetter (sym p) l in
            let colon : b ≡ b':' = cc in
            let third : c ≡ y = cc in
            let end : (c ≡ 0x5c) ⊎ (c ≡ 0x2f) =
              subst (λ z. (z ≡ 0x5c) ⊎ (z ≡ 0x2f)) (sym third) f in
            let d = drive.1 (lower, colon, end) in or_middle _ _ _ d
      ],
    )
