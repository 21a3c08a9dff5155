-- ===== src/Core/MonitorOutput/Display.antt =====
-- Whatever a stream writes, and however it is cut, its tail can be displayed.
use pi_persona.Base.{
  ℕ, zero, suc, ◌≤◌, ◌<◌, ◌≡◌, refl, sym, subst, ◌≢◌, ◌⊎◌, inl, inr, Bool, true, false, ◌||◌, List,
  [], ◌∷◌, ◌++◌, arith, ◌==◌, if◌then◌else◌, Text, All, All-append, All-drop, Bool-cases, lt_or_le,
}
use pi_persona.Core.MonitorOutput.{
  MonitorOutputTail, ControlState, text, escape, escape_intermediate, csi, osc, osc_escape, string,
  string_escape, new_tail, push, drop_line, ring_text, is_dropped, shown, show, in_text, step_from,
  append,
}
use pi_persona.Core.MonitorOutput.Ring.{IsRing, held, push-IsRing, push-held}

-- LF, or a unit that is neither a control (below U+0020, or U+007F to U+009F), nor U+2028 or U+2029, nor
-- one of the marks of text direction U+200E, U+200F, U+202A to U+202E and U+2066 to U+2069.
abbrev pub IsShown : ℕ → Type 0
IsShown c =
    (c ≡ 0x0a)
    ⊎ ((0x20 ≤ c)
        × ((c < 0x7f) ⊎ (0x9f < c))
        × (c ≢ 0x200e)
        × (c ≢ 0x200f)
        × ((c < 0x2028) ⊎ (0x202e < c))
        × ((c < 0x2066) ⊎ (0x2069 < c)))

pub record IsDisplayable (m : MonitorOutputTail) : Type 0 where
  pub ring : IsRing m
  pub units : All IsShown (held m)

shown-IsShown : (c : ℕ) → is_dropped c ≡ false → IsShown (shown c)
unfolding is_dropped shown
shown-IsShown c h = elim (Bool-cases (c == 0x09 || c == 0x2028 || c == 0x2029)) [
  | inl e ↦ rw e (
      inr (
        omega arith,
        inl (omega arith),
        λ n. omega arith,
        λ n. omega arith,
        inl (omega arith),
        inl (omega arith),
      ))
  | inr e ↦ rw e (
      inr (
        ground arith,
        ground arith,
        λ n. ground arith,
        λ n. ground arith,
        ground arith,
        ground arith,
      ))
]

All-left : (s t : Text) → All IsShown (s ++ t) → All IsShown s
All-left [] t a = tt
All-left (c ∷ s) t (h, a) = (h, All-left s t a)

ring_text-shorter :
    (chars : ℕ → ℕ) (start k n : ℕ)
    → k ≤ n
    → All IsShown (ring_text chars start n)
    → All IsShown (ring_text chars start k)
unfolding ring_text
ring_text-shorter chars start k zero h a = let e : k ≡ 0 = omega arith in rw e tt
ring_text-shorter chars start k (suc n) h a = elim (lt_or_le n k) [
  | inl all_of_it ↦
      let e : k ≡ suc n = omega arith in
      subst (λ j. All IsShown (ring_text chars start j)) (sym e) a
  | inr less ↦ ring_text-shorter chars start k n less (All-left (ring_text chars start n) _ a)
]

drop_line-le : (chars : ℕ → ℕ) (start n : ℕ) → drop_line chars start n ≤ n
unfolding drop_line
drop_line-le chars start zero = omega arith
drop_line-le chars start (suc n) = ground (arith, drop_line-le chars start n)

push-IsDisplayable :
    (m : MonitorOutputTail) (c : ℕ) → IsShown c → IsDisplayable m → IsDisplayable (push m c)
push-IsDisplayable m c s h = record {
  ring = push-IsRing m c h.ring;
  units = rw (push-held m c h.ring) (
      All-drop IsShown _ (held m ++ (c ∷ []))
        (All-append IsShown (held m) (c ∷ []) h.units (s, tt)));
}

-- Of both branches of a test, by the test.
branch :
    (b : Bool) (x y : MonitorOutputTail)
    → IsDisplayable x
    → (b ≡ false → IsDisplayable y)
    → IsDisplayable (if b then x else y)
branch true x y p q = p
branch false x y p q = q refl

module _ (m : MonitorOutputTail) (h : IsDisplayable m) where
  -- A change of the parser's state alone.
  with_state :
      (s : ControlState) (cr : Bool) → IsDisplayable (record m { state = s; carriage_return = cr })
  with_state s cr = record {
    ring = record { begins = h.ring.begins; fits = h.ring.fits };
    units = h.units;
  }

  show-IsDisplayable : (c : ℕ) → is_dropped c ≡ false → IsDisplayable (show m c)
  unfolding show
  show-IsDisplayable c d =
      branch m.carriage_return _ _
        (push-IsDisplayable
          (record m { length = drop_line m.chars m.start m.length; carriage_return = false })
          (shown c) (shown-IsShown c d)
          (record {
            ring = record {
              begins = h.ring.begins;
              fits = omega (arith, h.ring.fits, drop_line-le m.chars m.start m.length);
            };
            units =
                ring_text-shorter m.chars m.start _ m.length (drop_line-le m.chars m.start m.length)
                  h.units;
          }))
        (λ keeps. push-IsDisplayable m (shown c) (shown-IsShown c d) h)

  in_text-IsDisplayable : (c : ℕ) → IsDisplayable (in_text m c)
  unfolding in_text
  in_text-IsDisplayable c = branch (c == 0x9b) _ _ (with_state csi m.carriage_return) (λ _.
      branch (c == 0x9d) _ _ (with_state osc m.carriage_return) (λ _.
        branch (c == 0x90 || c == 0x98 || c == 0x9e || c == 0x9f) _ _
          (with_state string m.carriage_return)
          (λ _. branch (c == 0x0d) _ _ (with_state m.state true) (λ _.
            branch (c == 0x0a) _ _
              (push-IsDisplayable (record m { carriage_return = false }) 0x0a (inl refl)
                (with_state m.state false))
              (λ _. branch (is_dropped c) _ _ h (show-IsDisplayable c))))))

  step_from-IsDisplayable : (s : ControlState) (c : ℕ) → IsDisplayable (step_from s m c)
  unfolding step_from
  step_from-IsDisplayable osc c = with_state _ m.carriage_return
  step_from-IsDisplayable string c = with_state _ m.carriage_return
  step_from-IsDisplayable osc_escape c = with_state _ m.carriage_return
  step_from-IsDisplayable string_escape c = with_state _ m.carriage_return
  step_from-IsDisplayable escape c = with_state _ m.carriage_return
  step_from-IsDisplayable escape_intermediate c = with_state _ m.carriage_return
  step_from-IsDisplayable csi c = with_state _ m.carriage_return
  step_from-IsDisplayable text c =
      branch (c == 0x1b) _ _ (with_state escape m.carriage_return) (λ _. in_text-IsDisplayable c)

append-IsDisplayable :
    (m : MonitorOutputTail) (chunk : Text) → IsDisplayable m → IsDisplayable (append m chunk)
unfolding append
append-IsDisplayable m [] h = h
append-IsDisplayable m (c ∷ chunk) h =
    append-IsDisplayable (step_from m.state m c) chunk (step_from-IsDisplayable m h m.state c)

-- The tail of a stream that has written any chunks.
abbrev pub append_all : MonitorOutputTail → List Text → MonitorOutputTail
append_all m [] = m
append_all m (chunk ∷ chunks) = append_all (append m chunk) chunks

append_all-IsDisplayable_from :
    (m : MonitorOutputTail) (chunks : List Text)
    → IsDisplayable m
    → IsDisplayable (append_all m chunks)
append_all-IsDisplayable_from m [] h = h
append_all-IsDisplayable_from m (chunk ∷ chunks) h =
    append_all-IsDisplayable_from (append m chunk) chunks (append-IsDisplayable m chunk h)

-- Whatever chunks a stream writes, its tail holds at most 4000 units, and none of them is a control (below
-- U+0020, or U+007F to U+009F) other than LF, the separator U+2028 or U+2029, or one of the marks of text
-- direction U+200E, U+200F, U+202A to U+202E and U+2066 to U+2069. U+061C is not in this list.
pub append_all-IsDisplayable : (chunks : List Text) → IsDisplayable (append_all new_tail chunks)
append_all-IsDisplayable chunks = append_all-IsDisplayable_from new_tail chunks (record {
  ring = record { begins = omega arith; fits = omega arith };
  units = unfold ring_text in tt;
})
