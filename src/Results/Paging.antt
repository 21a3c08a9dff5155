-- ===== src/Results/Paging.antt =====
-- results/retrieval.ts: the pages of a live result, in UTF-16 code units.
pub mod Progress
mod Tests
use pi_persona.Base.{
  ℕ, zero, suc, ◌+◌, ◌-◌, Bool, true, false, not, ◌&&◌, ◌||◌, Option, none, some, List, [], ◌∷◌,
  ◌++◌, ◌==◌, ltb, leb, if◌then◌else◌, between, min, length, take, drop, get_elem?, Text,
}

abbrev pub read_max : ℕ
read_max = 16000

pub record StoredBodyPage : Type 0 where
  pub body : Text
  pub offset : ℕ
  pub end_of_stored_body : Bool
  pub next_offset : Option ℕ

-- The units around a position are the halves of a pair.
halves : Option ℕ → Option ℕ → Bool
halves (some a) (some b) = between 0xd800 0xdbff a && between 0xdc00 0xdfff b
halves _ _ = false

pub splits_pair : Text → ℕ → Bool
unfolding halves
splits_pair body at =
    ltb 0 at && ltb at (length body) && halves (get_elem? body (at - 1)) (get_elem? body at)

-- Where the page ends.
pub page_end : Text → ℕ → ℕ → ℕ
page_end body offset limit =
    let end = min (length body) (offset + limit) in if splits_pair body end then end - 1 else end

pub page_live_result : Text → ℕ → ℕ → Option StoredBodyPage
unfolding page_end
page_live_result body offset limit =
    let end = page_end body offset limit in
    if ltb (length body) offset || splits_pair body offset || ltb limit 2 || ltb read_max limit
    then none
    else some (record {
      body = take (end - offset) (drop offset body);
      offset = offset;
      end_of_stored_body = end == length body;
      next_offset = if ltb end (length body) then some end else none;
    })
