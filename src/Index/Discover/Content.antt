-- ===== src/Index/Discover/Content.antt =====
-- internal/index/discovery.go: `normalizeContent`, whose lines end in a single byte.
use rillan.Base.{◌==◌, ◌&&◌, if◌then◌else◌, ◌≡◌, false, [], ◌∷◌, All, Str, arith}

-- `strings.ReplaceAll(content, "\r\n", "\n")`
unfoldable pub replace_crlf : Str → Str
replace_crlf [] = []
replace_crlf (c ∷ []) = c ∷ []
replace_crlf (c ∷ d ∷ s) =
    let after = replace_crlf s in
    let rest = replace_crlf (d ∷ s) in if c == 13 && d == 10 then 10 ∷ after else c ∷ rest

-- `strings.ReplaceAll(content, "\r", "\n")`
unfoldable pub replace_cr : Str → Str
replace_cr [] = []
replace_cr (c ∷ s) = (if c == 13 then 10 else c) ∷ replace_cr s

unfoldable pub normalize_content : Str → Str
unfolding replace_crlf replace_cr
normalize_content content = replace_cr (replace_crlf content)

-- No carriage return is left.
replace_cr-All : (s : Str) → All (λ c. (c == 13) ≡ false) (replace_cr s)
unfolding replace_cr
replace_cr-All [] = tt
replace_cr-All (c ∷ s) = (ground arith, replace_cr-All s)

pub normalize_content-All :
    (content : Str) → All (λ c. (c == 13) ≡ false) (normalize_content content)
unfolding normalize_content
normalize_content-All content = replace_cr-All (replace_crlf content)
