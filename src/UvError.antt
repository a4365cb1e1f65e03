-- ===== src/UvError.antt =====
-- `GetUVError` of uv/uv_utils.h, the text for a code of libuv. `err_name` and `str_error` are `uv_err_name`
-- and `uv_strerror`, `none` for a null pointer, and `print` is `std::to_string`. The components keep the
-- code in place of the text.
use test_libuv.Common.{
  ℕ, ◌≡◌, true, false, Option, none, some, List, [], ◌∷◌, ◌++◌, if◌then◌else◌, ℤ, is_zero, arith,
  length, ◌<◌, length-append, ◌⊎◌,
}

-- `"unknown system errcode "`.
abbrev unknown : List ℕ
unknown =
    b'u' ∷ b'n' ∷ b'k' ∷ b'n' ∷ b'o' ∷ b'w' ∷ b'n' ∷ b' ' ∷ b's' ∷ b'y' ∷ b's' ∷ b't' ∷ b'e' ∷ b'm'
    ∷ b' ' ∷ b'e' ∷ b'r' ∷ b'r' ∷ b'c' ∷ b'o' ∷ b'd' ∷ b'e' ∷ b' ' ∷ []

module _ (err_name str_error : ℤ → Option (List ℕ)) (print : ℤ → List ℕ) where
  -- The name of the error, or its number.
  pub error_name : ℤ → Option (List ℕ) → List ℕ
  error_name code (some name) = name ++ (b':' ∷ [])
  error_name code none = (unknown ++ print code) ++ (b':' ∷ [])

  pub with_description : List ℕ → Option (List ℕ) → List ℕ
  with_description err (some text) = err ++ text
  with_description err none = err

  pub get_uv_error : ℤ → List ℕ
  unfolding error_name with_description
  get_uv_error code =
      if is_zero code
      then []
      else with_description (error_name code (err_name code)) (str_error code)

  error_name-length : (code : ℤ) (name : Option (List ℕ)) → 0 < length (error_name code name)
  unfolding error_name
  error_name-length code (some name) = omega (arith, length-append name (b':' ∷ []))
  error_name-length code none = omega (arith, length-append (unknown ++ print code) (b':' ∷ []))

  with_description-length :
      (err : List ℕ) (text : Option (List ℕ))
      → 0 < length err
      → 0 < length (with_description err text)
  unfolding with_description
  with_description-length err (some text) h = omega (arith, h, length-append err text)
  with_description-length err none h = h

  -- The text is empty for the code 0, and for no other.
  pub get_uv_error_lem :
      (code : ℤ)
      → ((is_zero code ≡ true) × (get_uv_error code ≡ []))
        ⊎ ((is_zero code ≡ false) × (0 < length (get_uv_error code)))
  unfolding get_uv_error
  get_uv_error_lem code = ground (
    arith,
    with_description-length (error_name code (err_name code)) (str_error code)
        (error_name-length code (err_name code)),
  )
