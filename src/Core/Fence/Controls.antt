-- ===== src/Core/Fence/Controls.antt =====
-- What terminal controls are left in a stripped text: none.
use pi_persona.Base.{
  ℕ, zero, suc, ◌≤◌, ◌≡◌, refl, sym, ap, subst, Bool, Option, none, some, [], ◌∷◌, arith, Text,
  length, All, ◌⊎◌, or_else,
}
use pi_persona.Core.Fence.{
  after_terminator, scan_osc, skip_while, after_final, scan_csi, skip_escape, after_return,
  is_control, is_csi_parameter, is_csi_intermediate, strip_step, write, strip_loop,
  strip_terminal_controls, csi_max_body, osc_max_payload,
}

-- A unit that can stand in a stripped text: TAB, LF, printable ASCII, or above the second block of control codes.
abbrev pub IsDisplayed : ℕ → Type 0
IsDisplayed c = (c ≡ 9) ⊎ ((c ≡ 10) ⊎ (((32 ≤ c) × (c ≤ 126)) ⊎ (160 ≤ c)))

IsDisplayed-write :
    (c : ℕ) (s out : Text) → All IsDisplayed out → All IsDisplayed (write (strip_step c s).0 out)
unfolding strip_step is_control
IsDisplayed-write c s out h = ground arith

strip_loop-IsDisplayed : (fuel : ℕ) (s : Text) → All IsDisplayed (strip_loop fuel s)
unfolding strip_loop
strip_loop-IsDisplayed zero s = tt
strip_loop-IsDisplayed (suc fuel) [] = tt
strip_loop-IsDisplayed (suc fuel) (c ∷ s) =
    IsDisplayed-write c s _ (strip_loop-IsDisplayed fuel (strip_step c s).1)

-- Whatever the text, its stripped form holds no control code but TAB and LF: no ESC, no CR, no DEL,
-- and none of the units 0x80 to 0x9f.
pub strip_terminal_controls-IsDisplayed : (s : Text) → All IsDisplayed (strip_terminal_controls s)
unfolding strip_terminal_controls
strip_terminal_controls-IsDisplayed s = strip_loop-IsDisplayed (length s) s

-- A round leaves no more than stood behind its unit.
after_terminator-length : (s t : Text) → after_terminator s ≡ some t → length t ≤ length s
unfolding after_terminator
after_terminator-length [] t e = ground arith
after_terminator-length (c ∷ s) t e = ground arith

scan_osc-length : (n : ℕ) (s t : Text) → scan_osc n s ≡ some t → length t ≤ length s
unfolding scan_osc
scan_osc-length n [] t e = ground arith
scan_osc-length zero (c ∷ s) t e = ground arith
scan_osc-length (suc n) (c ∷ s) t e =
    ground (arith, scan_osc-length n s t, after_terminator-length s t)

skip_while-length : (p : ℕ → Bool) (n : ℕ) (s : Text) → length (skip_while p n s).1 ≤ length s
unfolding skip_while
skip_while-length p n [] = omega arith
skip_while-length p zero (c ∷ s) = omega arith
skip_while-length p (suc n) (c ∷ s) = ground (arith, skip_while-length p n s)

after_final-length : (s t : Text) → after_final s ≡ some t → length t ≤ length s
unfolding after_final
after_final-length [] t e = ground arith
after_final-length (c ∷ s) t e = ground arith

scan_csi-length : (s t : Text) → scan_csi s ≡ some t → length t ≤ length s
unfolding scan_csi
scan_csi-length s t e =
    let (left, u) = skip_while is_csi_parameter csi_max_body s in
    omega (
      arith,
      skip_while-length is_csi_parameter csi_max_body s,
      skip_while-length is_csi_intermediate left u,
      after_final-length (skip_while is_csi_intermediate left u).1 t e,
    )

or_else-length :
    (o : Option Text) (d : Text) (n : ℕ)
    → ((t : Text) → o ≡ some t → length t ≤ n)
    → length d ≤ n
    → length (or_else o d) ≤ n
or_else-length none d n h k = k
or_else-length (some t) d n h k = h t refl

skip_escape-length : (s : Text) → length (skip_escape s) ≤ length s
unfolding skip_escape
skip_escape-length [] = omega arith
skip_escape-length (c ∷ s) = ground (
  arith,
  or_else-length (scan_osc osc_max_payload s) s (length s) (scan_osc-length osc_max_payload s)
      (omega arith),
  or_else-length (scan_csi s) (c ∷ s) (suc (length s)) (λ t e. omega (arith, scan_csi-length s t e))
      (omega arith),
)

strip_step-length : (c : ℕ) (s : Text) → length (strip_step c s).1 ≤ length s
unfolding strip_step after_return
strip_step-length c [] = ground (arith, skip_escape-length [])
strip_step-length c (d ∷ s) = ground (arith, skip_escape-length (d ∷ s))

strip_loop-nil : (f : ℕ) → strip_loop f [] ≡ []
unfolding strip_loop
strip_loop-nil zero = refl
strip_loop-nil (suc f) = refl

-- The run of the loop, without fuel: it ends where nothing is left to read, and each round goes on
-- with what it left.
pub data Strips : Text → Text → Type 0 where
  at_end : Strips [] []
  one_round :
      (c : ℕ) {s out : Text}
      → Strips (strip_step c s).1 out
      → Strips (c ∷ s) (write (strip_step c s).0 out)

strip_loop-Strips : (fuel : ℕ) (s : Text) → length s ≤ fuel → Strips s (strip_loop fuel s)
unfolding strip_loop
strip_loop-Strips fuel [] h = subst (Strips []) (sym (strip_loop-nil fuel)) at_end
strip_loop-Strips zero (c ∷ s) h = absurd (omega arith)
strip_loop-Strips (suc fuel) (c ∷ s) h =
    one_round c (strip_loop-Strips fuel (strip_step c s).1 (omega (arith, strip_step-length c s)))

-- From every text the loop comes to an end, after finitely many rounds each of which goes on with what
-- the one before left, with nothing left to read; the stripped text is what these rounds write.
pub strip_terminal_controls-Strips : (s : Text) → Strips s (strip_terminal_controls s)
unfolding strip_terminal_controls
strip_terminal_controls-Strips s = strip_loop-Strips (length s) s (omega arith)

strip_step_of_IsDisplayed : (c : ℕ) (s : Text) → IsDisplayed c → strip_step c s ≡ (some c, s)
unfolding strip_step is_control
strip_step_of_IsDisplayed c s h = ground arith

strip_loop_of_IsDisplayed :
    (fuel : ℕ) (s : Text) → length s ≤ fuel → All IsDisplayed s → strip_loop fuel s ≡ s
unfolding strip_loop
strip_loop_of_IsDisplayed zero [] h k = refl
strip_loop_of_IsDisplayed zero (c ∷ s) h k = absurd (omega arith)
strip_loop_of_IsDisplayed (suc fuel) [] h k = refl
strip_loop_of_IsDisplayed (suc fuel) (c ∷ s) h (k, ks) =
    rw (strip_step_of_IsDisplayed c s k)
      (ap (◌∷◌ c) (strip_loop_of_IsDisplayed fuel s (omega arith) ks))

-- A text whose units can all be displayed passes unchanged.
pub strip_terminal_controls_of_IsDisplayed :
    (s : Text) → All IsDisplayed s → strip_terminal_controls s ≡ s
unfolding strip_terminal_controls
strip_terminal_controls_of_IsDisplayed s k = strip_loop_of_IsDisplayed (length s) s (omega arith) k

-- Stripping the control codes of a text that was stripped changes nothing.
pub strip_terminal_controls_idem :
    (s : Text) → strip_terminal_controls (strip_terminal_controls s) ≡ strip_terminal_controls s
strip_terminal_controls_idem s =
    strip_terminal_controls_of_IsDisplayed _ (strip_terminal_controls-IsDisplayed s)
