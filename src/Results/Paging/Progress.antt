-- ===== src/Results/Paging/Progress.antt =====
-- Following the offsets of the pages reads the whole body.
use mathlib.Core.List.{append-nil}
use pi_persona.Base.{
  Bool, List, flatten, map, All, length-take, length-drop, ℕ, zero, suc, ◌+◌, ◌-◌, ◌≤◌, ◌<◌, ◌≡◌,
  refl, sym, subst, ap, ◌∙◌, ◌⊎◌, inl, inr, true, false, ◌||◌, Option, none, some, [], ◌∷◌, ◌++◌,
  arith, ◌==◌, ltb, if◌then◌else◌, min, length, take, drop, take-append-drop, length-append,
  get_elem?, Text, Bool-cases, lt_or_le,
}
use pi_persona.Results.Paging.{
  read_max, StoredBodyPage, halves, splits_pair, page_end, page_live_result,
}

-- A position right before the second half of a pair is followed by its first half.
halves_apart : (a b c : Option ℕ) → halves b c ≡ true → halves a b ≡ false
unfolding halves
halves_apart none b c h = refl
halves_apart (some a) none c h = refl
halves_apart (some a) (some b) none h = cc
halves_apart (some a) (some b) (some c) h = ground arith

drop_nil : (n : ℕ) → drop {A = ℕ} n [] ≡ []
drop_nil zero = refl
drop_nil (suc n) = refl

drop-drop : (m n : ℕ) (s : Text) → drop m (drop n s) ≡ drop (n + m) s
drop-drop m zero s = let e : 0 + m ≡ m = omega arith in rw e refl
drop-drop zero (suc n) [] = sym (drop_nil (suc n + 0))
drop-drop (suc m) (suc n) [] = sym (drop_nil (suc n + suc m))
drop-drop m (suc n) (c ∷ s) =
    let e : suc n + m ≡ suc (n + m) = omega arith in rw (e, drop-drop m n s) refl

drop_all : (s : Text) → drop (length s) s ≡ []
drop_all [] = refl
drop_all (c ∷ s) = drop_all s

-- The pages of a reader that goes on from each page's next offset, in at most so many.
join_pages :
    Option StoredBodyPage → (ℕ → Option (List StoredBodyPage)) → Option (List StoredBodyPage)
join_pages none rest = none
join_pages (some p) rest = elim p.next_offset [
  | none ↦ some (p ∷ [])
  | some n ↦ elim (rest n) [ none ↦ none | some ps ↦ some (p ∷ ps) ]
]

pub read_pages : ℕ → Text → ℕ → ℕ → Option (List StoredBodyPage)
unfolding join_pages
read_pages zero body limit offset = none
read_pages (suc fuel) body limit offset =
    join_pages (page_live_result body offset limit) (read_pages fuel body limit)

-- A high and a low surrogate stand next to each other, and the position is between them.
pub data SplitsPair (body : Text) (at : ℕ) : Type 0 where
  pair :
      (before after : Text) (a b : ℕ)
      → body ≡ before ++ (a ∷ b ∷ after)
      → at ≡ length before + 1
      → (0xd800 ≤ a) × (a ≤ 0xdbff)
      → (0xdc00 ≤ b) × (b ≤ 0xdfff)
      → SplitsPair body at

-- A page of at most so many units that neither begins nor ends within a pair.
pub record IsWholePage (body : Text) (limit : ℕ) (p : StoredBodyPage) : Type 0 where
  pub fits : length p.body ≤ limit
  pub begins : ¬ SplitsPair body p.offset
  pub ends : ¬ SplitsPair body (p.offset + length p.body)

get_elem?-middle :
    (before after : Text) (a : ℕ) → get_elem? (before ++ (a ∷ after)) (length before) ≡ some a
get_elem?-middle [] after a = refl
get_elem?-middle (c ∷ before) after a = get_elem?-middle before after a

get_elem?-next :
    (before after : Text) (a b : ℕ)
    → get_elem? (before ++ (a ∷ b ∷ after)) (suc (length before)) ≡ some b
get_elem?-next [] after a b = refl
get_elem?-next (c ∷ before) after a b = get_elem?-next before after a b

splits_pair-SplitsPair : (body : Text) (at : ℕ) → splits_pair body at ≡ false → ¬ SplitsPair body at
unfolding splits_pair halves
splits_pair-SplitsPair body at h (pair before after a b e f high low) =
    let l : at - 1 ≡ length before = omega (arith, f) in
    let n : at ≡ suc (length before) = omega (arith, f) in
    let first : get_elem? body (at - 1) ≡ some a =
      rw (l, e) (get_elem?-middle before (b ∷ after) a) in
    let second : get_elem? body at ≡ some b = rw (n, e) (get_elem?-next before after a b) in
    let long : length body ≡ length before + suc (suc (length after)) =
      rw e (length-append before (a ∷ b ∷ after)) in
    let h' = rw (first, second) at h in
    absurd (ground (arith, h', long, f, high.0, high.1, low.0, low.1))

module _ (body : Text) where
  splits_pair-before : (at : ℕ) → splits_pair body at ≡ true → splits_pair body (at - 1) ≡ false
  unfolding splits_pair
  splits_pair-before at h = ground (
    arith,
    halves_apart (get_elem? body (at - 1 - 1)) (get_elem? body (at - 1)) (get_elem? body at),
  )

  splits_pair-bounds : (at : ℕ) → splits_pair body at ≡ true → (0 < at) × (at < length body)
  unfolding splits_pair
  splits_pair-bounds at h = (ground arith, ground arith)

  module _ (offset limit : ℕ) where
    -- A page ends behind its start or at the end of the body, and never within a pair.
    record EndsWell (end : ℕ) : Type 0 where
      pub within : end ≤ length body
      pub near : end ≤ offset + limit
      pub on : (offset < end) ⊎ (end ≡ length body)
      pub whole : splits_pair body end ≡ false

    page_end-EndsWell : offset ≤ length body → 2 ≤ limit → EndsWell (page_end body offset limit)
    unfolding page_end
    page_end-EndsWell h l =
        let end = min (length body) (offset + limit) in
        elim (Bool-cases (splits_pair body end)) [
          | inl split ↦
              let (pos, less) = splits_pair-bounds end split in
              rw split (record {
                within = omega arith;
                near = omega arith;
                on = inl (omega arith);
                whole = splits_pair-before end split;
              })
          | inr fine ↦ rw fine (record {
            within = omega arith;
            near = omega arith;
            on = elim (lt_or_le (offset + limit) (length body)) [
              | inl a ↦ inl (omega arith)
              | inr b ↦ inr (omega arith)
            ];
            whole = fine;
          })
        ]

    -- A page that is asked for at a good position.
    page_of :
        offset ≤ length body
        → splits_pair body offset ≡ false
        → 2 ≤ limit
        → limit ≤ read_max
        → page_live_result body offset limit ≡ (
            let end = page_end body offset limit in
            some (record {
              body = take (end - offset) (drop offset body);
              offset = offset;
              end_of_stored_body = end == length body;
              next_offset = if ltb end (length body) then some end else none;
            }))
    unfolding page_live_result
    page_of h s l m =
        let good : (ltb (length body) offset
              || splits_pair body offset
              || ltb limit 2
              || ltb read_max limit)
            ≡ false =
          ground (arith, s) in
        rw good refl

  rejoin :
      (offset end : ℕ)
      → offset ≤ end
      → take (end - offset) (drop offset body) ++ drop end body ≡ drop offset body
  rejoin offset end h =
      let e : offset + (end - offset) ≡ end = omega arith in
      let behind : drop (end - offset) (drop offset body) ≡ drop end body =
        drop-drop (end - offset) offset body ∙ ap (λ j. drop j body) e in
      subst (λ s. take (end - offset) (drop offset body) ++ s ≡ drop offset body) behind
        (take-append-drop (end - offset) (drop offset body))

  last_page :
      (offset end : ℕ)
      → offset ≤ length body
      → end ≡ length body
      → take (end - offset) (drop offset body) ≡ drop offset body
  last_page offset end h e =
      let gone : drop end body ≡ [] = ap (λ j. drop j body) e ∙ drop_all body in
      sym (append-nil (take (end - offset) (drop offset body)))
      ∙ subst (λ s. take (end - offset) (drop offset body) ++ s ≡ drop offset body) gone
          (rejoin offset end (omega arith))

  page_IsWholePage :
      (limit offset end : ℕ) (last : Bool) (next : Option ℕ)
      → offset ≤ length body
      → splits_pair body offset ≡ false
      → offset ≤ end
      → EndsWell offset limit end
      → IsWholePage body limit (record {
        body = take (end - offset) (drop offset body);
        offset = offset;
        end_of_stored_body = last;
        next_offset = next;
      })
  page_IsWholePage limit offset end last next h s on w =
      let size : length (take (end - offset) (drop offset body)) ≡ end - offset =
        omega (
          arith,
          length-take (end - offset) (drop offset body),
          length-drop offset body,
          w.within,
        ) in
      let until : offset + length (take (end - offset) (drop offset body)) ≡ end =
        omega (arith, size) in
      record {
        fits = omega (arith, size, w.near);
        begins = splits_pair-SplitsPair body offset s;
        ends = rw until (splits_pair-SplitsPair body end w.whole);
      }

  -- What a reader has that got all the pages from an offset on.
  abbrev HasAll : ℕ → ℕ → Option (List StoredBodyPage) → Type 0
  HasAll limit offset got =
      (pages : List StoredBodyPage) × (got ≡ some pages)
      × (flatten (map (λ p. p.body) pages) ≡ drop offset body)
      × All (IsWholePage body limit) pages

  read_pages_from :
      (fuel limit offset : ℕ)
      → 2 ≤ limit
      → limit ≤ read_max
      → offset ≤ length body
      → splits_pair body offset ≡ false
      → length body - offset < fuel
      → HasAll limit offset (read_pages fuel body limit offset)
  unfolding read_pages join_pages
  read_pages_from zero limit offset l m h s f = absurd (omega arith)
  read_pages_from (suc fuel) limit offset l m h s f =
      let end = page_end body offset limit in
      let w = page_end-EndsWell offset limit h l in
      let on : offset ≤ end = elim w.on [
        | inl a ↦ omega (arith, a)
        | inr b ↦ omega (arith, b, h)
      ] in
      rw (page_of offset limit h s l m) (elim (Bool-cases (ltb end (length body))) [
        | inl more ↦
            let further : offset < end = elim w.on [ inl a ↦ a | inr b ↦ absurd (ground arith) ] in
            let (pages, got, joined, whole) =
              read_pages_from fuel limit end l m w.within w.whole (omega arith) in
            rw (more, got)
              (
                _ ∷ pages,
                refl,
                rw joined (rejoin offset end on),
                (page_IsWholePage limit offset end _ _ h s on w, whole),
              )
        | inr last ↦
            let over : end ≡ length body = ground (arith, w.within) in
            rw last (
              _ ∷ [],
              refl,
              append-nil _ ∙ last_page offset end h over,
              (page_IsWholePage limit offset end _ _ h s on w, tt),
            )
      ])

  -- Whatever its limit, from 2 to 16000 units, a reader that follows the offset of each page is refused
  -- none, and has, after at most one page more than the body has units, pages that together are the whole
  -- body; none of them is longer than the limit, and none begins or ends within a surrogate pair.
  pub read_pages_lem :
      (limit : ℕ)
      → 2 ≤ limit
      → limit ≤ read_max
      → (pages : List StoredBodyPage) × (read_pages (length body + 1) body limit 0 ≡ some pages)
        × (flatten (map (λ p. p.body) pages) ≡ body)
        × All (IsWholePage body limit) pages
  read_pages_lem limit l m =
      let begins : splits_pair body 0 ≡ false = unfold splits_pair in refl in
      read_pages_from (length body + 1) limit 0 l m (omega arith) begins (omega arith)
