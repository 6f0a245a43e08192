-- ===== src/Mime/Types.antt =====
-- Whatever the extension, the MIME type that is guessed can stand in a header.
use torrest_cpp.Prelude.{
  ℕ, ◌≡◌, refl, sym, subst, ◌∙◌, inl, inr, Bool, true, false, ◌&&◌, ◌||◌, some, List, [], ◌∷◌, leb,
  ◌==◌, Bool-cases, Option-cases, Bytes, bytes_eq,
}
use torrest_cpp.Mime.{find_type, get_mimes, or_octet_stream, guess_mime_type}

-- The characters of names in the table: letters, digits, `+`, `-` and `.`.
abbrev pub is_name_byte : ℕ → Bool
is_name_byte c =
    (leb b'a' c && leb c b'z')
    || (leb b'A' c && leb c b'Z')
    || (leb b'0' c && leb c b'9')
    || c == b'+'
    || c == b'-'
    || c == b'.'

-- A name, to the end.
abbrev pub is_name : Bytes → Bool
is_name [] = false
is_name (c ∷ []) = is_name_byte c
is_name (c ∷ s) = is_name_byte c && is_name s

-- The rest of a name, a slash and a name.
abbrev pub is_type_rest : Bytes → Bool
is_type_rest [] = false
is_type_rest (c ∷ s) = (c == b'/' && is_name s) || (is_name_byte c && is_type_rest s)

-- Two names with a slash between them.
abbrev pub is_media_type : Bytes → Bool
is_media_type [] = false
is_media_type (c ∷ s) = is_name_byte c && is_type_rest s

abbrev pub all_media_types : List (Bytes × Bytes) → Bool
all_media_types [] = true
all_media_types ((key, type) ∷ ms) = is_media_type type && all_media_types ms

-- What is found in a table is one of its types.
find_type-is_media_type :
    (extension : Bytes) (ms : List (Bytes × Bytes)) (type : Bytes)
    → all_media_types ms ≡ true
    → find_type extension ms ≡ some type
    → is_media_type type ≡ true
unfolding find_type
find_type-is_media_type extension [] type all e = absurd (cc)
find_type-is_media_type extension ((key, t) ∷ ms) type all e = elim (Bool-cases (is_media_type t)) [
  | inl good ↦ elim (Bool-cases (bytes_eq key extension)) [
    | inl here ↦
        let same : some t ≡ some type = sym (rw here refl) ∙ e in
        let t_type : t ≡ type = cc in subst (λ x. is_media_type x ≡ true) t_type good
    | inr later ↦
        find_type-is_media_type extension ms type (sym (rw good refl) ∙ all)
          (sym (rw later refl) ∙ e)
  ]
  | inr bad ↦ absurd (let no_way : false ≡ true = sym (rw bad refl) ∙ all in cc)
]

get_mimes-all_media_types : all_media_types get_mimes ≡ true
unfolding get_mimes
get_mimes-all_media_types = refl

-- The MIME type guessed for any extension is two names of letters, digits, `+`, `-` and `.` with a slash
-- between them.
pub guess_mime_type-is_media_type :
    (extension : Bytes) → is_media_type (guess_mime_type extension) ≡ true
unfolding guess_mime_type or_octet_stream
guess_mime_type-is_media_type extension = elim (Option-cases (find_type extension get_mimes)) [
  | inl n ↦ rw n refl
  | inr (type, y) ↦
      rw y (find_type-is_media_type extension get_mimes type get_mimes-all_media_types y)
]
