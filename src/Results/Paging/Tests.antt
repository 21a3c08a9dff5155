-- ===== src/Results/Paging/Tests.antt =====
-- A body with a surrogate pair, in pages of two units.
use pi_persona.Base.{
  List, flatten, map, All, ◌+◌, ◌≡◌, refl, some, false, [], ◌∷◌, arith, length, Text,
}
use pi_persona.Results.Paging.{StoredBodyPage, page_live_result, page_end, splits_pair, halves}
use pi_persona.Results.Paging.Progress.{IsWholePage, read_pages, read_pages_lem}

abbrev body : Text
body = 0x61 ∷ 0xd83d ∷ 0xde00 ∷ 0x62 ∷ []

read_pages_lem_example :
    (pages : List StoredBodyPage) × (read_pages (length body + 1) body 2 0 ≡ some pages)
    × (flatten (map (λ p. p.body) pages) ≡ body)
    × All (IsWholePage body 2) pages
read_pages_lem_example = read_pages_lem body 2 (omega arith) (omega arith)

first_page :
    page_live_result body 0 2
    ≡ some
        (record { body = 0x61 ∷ []; offset = 0; end_of_stored_body = false; next_offset = some 1 })
unfolding page_live_result page_end splits_pair halves
first_page = refl
