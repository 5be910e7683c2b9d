-- ===== src/Uuid/Tests.antt =====
-- src/c/uuid.c and src/c/util.c: the form of a printed UUID at concrete bytes.
use iotech_c_utils.Common.{ℕ, ◌≡◌, refl, arith, Bool, true, ◌&&◌, ◌||◌, [], ◌∷◌, leb, All}
use iotech_c_utils.Uuid.{hexdigits, mark, unparse, string_is_uuid}
use iotech_c_utils.Uuid.Form.{string_is_uuid-unparse}

-- `isxdigit` in the C locale.
abbrev is_hex : ℕ → Bool
is_hex c = (leb 48 c && leb c 57) || ((leb 65 c && leb c 70) || (leb 97 c && leb c 102))

hexdigits_hex : All (λ c. is_hex c ≡ true) hexdigits
unfolding hexdigits
hexdigits_hex = (
  refl,
  (
    refl,
    (
      refl,
      (
        refl,
        (
          refl,
          (
            refl,
            (refl, (refl, (refl, (refl, (refl, (refl, (refl, (refl, (refl, (refl, tt)))))))))),
          ),
        ),
      ),
    ),
  ),
)

mark_bytes :
    mark 0 (0 ∷ 1 ∷ 2 ∷ 3 ∷ 4 ∷ 5 ∷ 0xff ∷ 7 ∷ 0xff ∷ 9 ∷ [])
    ≡ 0 ∷ 1 ∷ 2 ∷ 3 ∷ 4 ∷ 5 ∷ 0x4f ∷ 7 ∷ 0xbf ∷ 9 ∷ []
mark_bytes = refl

string_is_uuid-unparse_example :
    string_is_uuid is_hex
      (unparse (0 ∷ 1 ∷ 2 ∷ 3 ∷ 4 ∷ 5 ∷ 6 ∷ 7 ∷ 8 ∷ 9 ∷ 10 ∷ 11 ∷ 12 ∷ 13 ∷ 14 ∷ 255 ∷ []))
    ≡ true
string_is_uuid-unparse_example =
    string_is_uuid-unparse is_hex hexdigits_hex 0 1 2 3 4 5 6 7 8 9 10 11 12 13 14 255 (
      omega arith,
      (
        omega arith,
        (
          omega arith,
          (
            omega arith,
            (
              omega arith,
              (
                omega arith,
                (
                  omega arith,
                  (
                    omega arith,
                    (
                      omega arith,
                      (
                        omega arith,
                        (
                          omega arith,
                          (
                            omega arith,
                            (omega arith, (omega arith, (omega arith, (omega arith, tt)))),
                          ),
                        ),
                      ),
                    ),
                  ),
                ),
              ),
            ),
          ),
        ),
      ),
    )
