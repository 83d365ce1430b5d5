-- ===== src/Path/StatelessToken/Examples.antt =====
-- The cookie theorems with a concrete keyed function in the place of HMAC-SHA256.
use gtp_rs.Base.{ℕ, ◌+◌, ◌*◌, ◌%◌, ◌≤◌, ◌≡◌, refl, arith, true, List, [], ◌∷◌, replicate, from_be}
use gtp_rs.Path.StatelessToken.{
  StatelessTokenManager, token_lifetime, mac, generate_cookie, verify_cookie,
}
use gtp_rs.Path.StatelessToken.Cookies.{verify-generate, verify_cookie_sound}

abbrev sum : List ℕ → ℕ
sum [] = 0
sum (b ∷ bs) = b + sum bs

abbrev keyed : List ℕ → List ℕ → List ℕ
keyed key message = replicate 32 ((sum key * 7 + sum message) % 256)

abbrev text : ℕ → List ℕ
text port = port % 256 ∷ []

abbrev manager : StatelessTokenManager
manager = record { secret = replicate 32 0x42 }

verify-generate_example :
    verify_cookie keyed text manager 4000 (generate_cookie keyed text manager 4000 1000000) 9000000
    ≡ true
verify-generate_example =
    verify-generate keyed text manager 4000 1000000 9000000 (omega arith) (omega arith)
      (omega arith)

abbrev cookie : List ℕ
cookie = 0 ∷ 0 ∷ 0 ∷ 0 ∷ 0 ∷ 15 ∷ 66 ∷ 64 ∷ replicate 24 119

verify_cookie_sound_example :
    (issued : ℕ) × (cookie ≡ generate_cookie keyed text manager 4000 issued)
    × (issued ≤ 9000000)
    × (9000000 ≤ issued + token_lifetime)
unfolding verify_cookie mac from_be
verify_cookie_sound_example =
    verify_cookie_sound keyed text manager 4000 cookie 9000000 (ground arith) refl refl
