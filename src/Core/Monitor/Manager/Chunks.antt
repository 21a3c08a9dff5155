-- ===== src/Core/Monitor/Manager/Chunks.antt =====
-- Where the stream of a process is cut into chunks makes no difference to what its monitor does.
use mathlib.Core.List.{append_assoc}
use pi_persona.Base.{
  ℕ, suc, ◌+◌, ◌≡◌, ◌∙◌, sym, refl, ap, subst, inl, inr, Bool, true, false, List, [], ◌∷◌, ◌++◌,
  arith, leb, ◌==◌, if◌then◌else◌, length, Bool-cases, Text, is_empty, trim, ◌||◌, ◌&&◌, any,
}
use pi_persona.Core.Monitor.{append_bounded_line, hash_line, output_mode, MonitorEntry}
use pi_persona.Core.Monitor.Active.{ActiveMonitor, Notice, MonitorEvent, finish_monitor}
use pi_persona.Core.Monitor.Manager.{
  emit_output, absorb, end_line, onto_first, cut, feed_by, feed_lines, feed_stdout,
}
use pi_persona.Core.Monitor.Lines.{append_bounded_line-cons}

absorb-cons :
    (a : ActiveMonitor) (c : ℕ) (s : Text) → absorb a (c ∷ s) ≡ absorb (absorb a (c ∷ [])) s
unfolding absorb hash_line
absorb-cons a c s =
    let size : a.line_length + length (c ∷ s) ≡ (a.line_length + 1) + length s = omega arith in
    rw (append_bounded_line-cons a.stdout_buffer c s, size) refl

-- The stream unit by unit.
step : ActiveMonitor → ℕ → ℕ → ActiveMonitor × List Notice
step a c now = if c == 10 then end_line a now else (absorb a (c ∷ []), [])

pub run : ActiveMonitor → Text → ℕ → ActiveMonitor × List Notice
unfolding step
run a [] now = (a, [])
run a (c ∷ s) now =
    let (b, out) = step a c now in
    let (d, more) = run b s now in if b.terminal then (b, out) else (d, out ++ more)

absorb-nil : (a : ActiveMonitor) → absorb a [] ≡ a
unfolding absorb append_bounded_line hash_line
absorb-nil a = let e : a.line_length + 0 ≡ a.line_length = omega arith in rw e refl

absorb-terminal : (a : ActiveMonitor) (s : Text) → (absorb a s).terminal ≡ a.terminal
unfolding absorb
absorb-terminal a s = refl

feed-onto_first :
    (a : ActiveMonitor) (c : ℕ) (lines : List Text) (rest : Text) (now : ℕ)
    → (let (ls, r) = onto_first c (lines, rest) in feed_lines a ls r now)
      ≡ feed_lines (absorb a (c ∷ [])) lines rest now
unfolding feed_lines onto_first
feed-onto_first a c [] rest now = ap (λ b. (b, [])) (absorb-cons a c rest)
feed-onto_first a c (l ∷ lines) rest now = rw (absorb-cons a c l) refl

-- The stream behind a first part, where the monitor has not ended in it.
pub and_then :
    ActiveMonitor × List Notice
    → (ActiveMonitor → ActiveMonitor × List Notice)
    → ActiveMonitor × List Notice
and_then (b, out) next = let (c, more) = next b in if b.terminal then (b, out) else (c, out ++ more)

if_true {ℓ} : {A : Type ℓ} (b : Bool) (x y : A) → b ≡ true → (if b then x else y) ≡ x
if_true b x y e = rw e refl

if_cong {ℓ} :
    {A : Type ℓ} (b : Bool) (x : A) {y y' : A}
    → (b ≡ false → y ≡ y')
    → (if b then x else y) ≡ (if b then x else y')
if_cong true x e = refl
if_cong false x e = e refl

module _ (f g : ActiveMonitor → ActiveMonitor × List Notice) where
  and_then_cong :
      (p : ActiveMonitor × List Notice)
      → (p.0.terminal ≡ false → f p.0 ≡ g p.0)
      → and_then p f ≡ and_then p g
  unfolding and_then
  and_then_cong p e = if_cong p.0.terminal p (λ on. ap (λ r. (r.0, p.1 ++ r.1)) (e on))

  and_then_behind :
      (b : Bool) (q r : ActiveMonitor × List Notice) (out : List Notice)
      → ◌≡◌ {A = ActiveMonitor × List Notice}
          (if b then (q.0, out ++ q.1) else (r.0, (out ++ q.1) ++ r.1))
          ((if b then q else (r.0, q.1 ++ r.1)).0, out ++ (if b then q else (r.0, q.1 ++ r.1)).1)
  and_then_behind true q r out = refl
  and_then_behind false q r out = ap (λ l. (r.0, l)) (append_assoc out q.1 r.1)

  and_then_assoc_from :
      (b : Bool) (p : ActiveMonitor × List Notice)
      → p.0.terminal ≡ b
      → and_then (if b then p else ((f p.0).0, p.1 ++ (f p.0).1)) g
        ≡ (let s = and_then (f p.0) g in if b then p else (s.0, p.1 ++ s.1))
  unfolding and_then
  and_then_assoc_from true p e = if_true p.0.terminal _ _ e
  and_then_assoc_from false p e = and_then_behind (f p.0).0.terminal (f p.0) (g (f p.0).0) p.1

  and_then_assoc :
      (p : ActiveMonitor × List Notice)
      → and_then (and_then p f) g ≡ and_then p (λ b. and_then (f b) g)
  unfolding and_then
  and_then_assoc p = and_then_assoc_from p.0.terminal p refl

run-cons :
    (a : ActiveMonitor) (c : ℕ) (s : Text) (now : ℕ)
    → run a (c ∷ s) now ≡ and_then (step a c now) (λ b. run b s now)
unfolding run and_then
run-cons a c s now = refl

feed-line :
    (a : ActiveMonitor) (lines : List Text) (rest : Text) (now : ℕ)
    → feed_lines a ([] ∷ lines) rest now
      ≡ and_then (end_line a now) (λ b. feed_lines b lines rest now)
unfolding feed_lines and_then
feed-line a lines rest now = rw (absorb-nil a) refl

step-plain :
    (a : ActiveMonitor) (c : ℕ) (now : ℕ) (next : ActiveMonitor → ActiveMonitor × List Notice)
    → (c == 10) ≡ false
    → a.terminal ≡ false
    → and_then (step a c now) next ≡ next (absorb a (c ∷ []))
unfolding step and_then
step-plain a c now next plain live = rw (plain, absorb-terminal a (c ∷ []), live) refl

step-break :
    (a : ActiveMonitor) (c : ℕ) (now : ℕ) → (c == 10) ≡ true → step a c now ≡ end_line a now
unfolding step
step-break a c now break = rw break refl

fed_nothing : (a : ActiveMonitor) (now : ℕ) → feed_lines a [] [] now ≡ run a [] now
unfolding feed_lines run
fed_nothing a now = rw (absorb-nil a) refl

feed-run :
    (s : Text) (a : ActiveMonitor) (now : ℕ)
    → a.terminal ≡ false
    → feed_lines a (cut s).0 (cut s).1 now ≡ run a s now
unfolding cut
feed-run [] a now live = fed_nothing a now
feed-run (c ∷ s) a now live = elim (Bool-cases (c == 10)) [
  | inl break ↦ rw break (
      feed-line a (cut s).0 (cut s).1 now
      ∙ and_then_cong _ _ (end_line a now) (λ on. feed-run s (end_line a now).0 now on)
      ∙ ap (λ p. and_then p (λ b. run b s now)) (sym (step-break a c now break))
      ∙ sym (run-cons a c s now))
  | inr plain ↦ rw plain (
      feed-onto_first a c (cut s).0 (cut s).1 now
      ∙ feed-run s (absorb a (c ∷ [])) now (absorb-terminal a (c ∷ []) ∙ live)
      ∙ sym (step-plain a c now (λ b. run b s now) plain live)
      ∙ sym (run-cons a c s now))
]

run_nothing :
    (a : ActiveMonitor) (t : Text) (now : ℕ)
    → a.terminal ≡ false
    → run a t now ≡ and_then (run a [] now) (λ b. run b t now)
unfolding run and_then
run_nothing a t now live = rw live refl

run-append :
    (s t : Text) (a : ActiveMonitor) (now : ℕ)
    → a.terminal ≡ false
    → run a (s ++ t) now ≡ and_then (run a s now) (λ b. run b t now)
run-append [] t a now live = run_nothing a t now live
run-append (c ∷ s) t a now live =
    run-cons a c (s ++ t) now
    ∙ and_then_cong _ _ (step a c now) (λ on. run-append s t (step a c now).0 now on)
    ∙ sym (and_then_assoc _ _ (step a c now))
    ∙ ap (λ p. and_then p (λ b. run b t now)) (sym (run-cons a c s now))

finish-entry : (a : ActiveMonitor) (e : MonitorEvent) → (finish_monitor a e).0.entry ≡ a.entry
unfolding finish_monitor
finish-entry a e = elim (Bool-cases a.terminal) [ inl over ↦ rw over refl | inr on ↦ rw on refl ]

emit_output-entry :
    (a : ActiveMonitor) (raw : Text) (identity : ℕ × ℕ) (now : ℕ)
    → (emit_output a raw identity now).0.entry ≡ a.entry
unfolding emit_output
emit_output-entry a raw identity now =
    elim (Bool-cases (
      is_empty (trim raw)
      || a.terminal
      || any (λ s. s.0 == identity.0 && s.1 == identity.1) a.seen_lines)) [
        | inl skipped ↦ rw skipped refl
        | inr new ↦ elim (Bool-cases (leb a.entry.max_events (suc a.events_seen))) [
          | inl last ↦ rw (new, last) (finish-entry _ _)
          | inr more ↦ rw (new, more) refl
        ]
      ]

step-entry : (a : ActiveMonitor) (c now : ℕ) → (step a c now).0.entry ≡ a.entry
unfolding step end_line absorb
step-entry a c now = elim (Bool-cases (c == 10)) [
  | inl break ↦ rw break (emit_output-entry a _ _ now)
  | inr plain ↦ rw plain refl
]

run-entry : (s : Text) (a : ActiveMonitor) (now : ℕ) → (run a s now).0.entry ≡ a.entry
unfolding run
run-entry [] a now = refl
run-entry (c ∷ s) a now = elim (Bool-cases (step a c now).0.terminal) [
  | inl over ↦ rw over (step-entry a c now)
  | inr on ↦ rw on (run-entry s (step a c now).0 now ∙ step-entry a c now)
]

feed_stdout-run :
    (a : ActiveMonitor) (s : Text) (now : ℕ)
    → a.terminal ≡ false
    → a.entry.mode ≡ output_mode
    → feed_stdout a s now ≡ run a s now
unfolding feed_stdout feed_by
feed_stdout-run a s now live mode =
    subst (λ m. feed_by m a s now ≡ run a s now) (sym mode) (feed-run s a now live)

-- What a live monitor that watches lines keeps and announces for one chunk of output is what it keeps
-- and announces for any two chunks, one behind the other, that make up the same text, where the clock
-- reads the same: a line that is cut in two is found whole, counted once and bounded alike. The second
-- chunk counts unless the first ended the monitor.
pub feed_stdout-append :
    (a : ActiveMonitor) (s t : Text) (now : ℕ)
    → a.terminal ≡ false
    → a.entry.mode ≡ output_mode
    → feed_stdout a (s ++ t) now ≡ and_then (feed_stdout a s now) (λ b. feed_stdout b t now)
feed_stdout-append a s t now live mode =
    feed_stdout-run a (s ++ t) now live mode
    ∙ run-append s t a now live
    ∙ and_then_cong _ _ (run a s now) (λ on. sym (
        feed_stdout-run (run a s now).0 t now on
          (ap (λ (e : MonitorEntry). e.mode) (run-entry s a now) ∙ mode)))
    ∙ ap (λ p. and_then p (λ b. feed_stdout b t now)) (sym (feed_stdout-run a s now live mode))
