-- ===== src/Lsp/Frame.antt =====
-- Reading back the frames that `send` writes.
use rwx.Prelude.{
  ℕ, ◌^◌, ◌<◌, Bool, true, false, not, ◌&&◌, ◌||◌, Option, none, some, List, [], ◌∷◌, ◌++◌, ◌==◌,
  nat_eq, Bytes, has_byte, has_prefix-append, trim_prefix, trim_right, length, length-append,
  take-length-append, drop-length-append, append_assoc, append-nil, all, ◌≡◌, refl, ap, sym, ◌∙◌,
  arith,
}
use rwx.Prelude.Decimal.{
  decimal, read_decimal, is_digit, read_decimal-decimal, decimal-is_digit, length-decimal,
}
use rwx.Prelude.Cut.{has_byte-append}
use rwx.Prelude.Result.{ok}
use rwx.Lsp.{
  content_length_header, frame, atoi, read_header_line, trim_line, read_header, read_body,
  read_message,
}

-- Up to the end of a line, the header's loop only gathers bytes.
read_header-append :
    (content_length : Option ℕ) (line s t : Bytes)
    → has_byte 10 s ≡ false
    → read_header content_length line (s ++ t) ≡ read_header content_length (line ++ s) t
unfolding read_header has_byte
read_header-append n line [] t h = ap (λ l. read_header n l t) (sym (append-nil line))
read_header-append n line (c ∷ s) t h =
    ground (arith, h, read_header-append n (line ++ (c ∷ [])) s t, append_assoc line (c ∷ []) s)

trim_right-end :
    (p : ℕ → Bool) (s : Bytes) (c : ℕ)
    → all (λ b. not (p b)) s ≡ true
    → p c ≡ true
    → trim_right p (s ++ (c ∷ [])) ≡ s
unfolding trim_right
trim_right-end p [] c h k = ground (arith, k)
trim_right-end p (a ∷ s) c h k = ground (arith, h, k, trim_right-end p s c)

all-append {ℓ} : {A : Type ℓ} (p : A → Bool) (s t : List A) → all p (s ++ t) ≡ (all p s && all p t)
all-append p [] t = refl
all-append p (a ∷ s) t = ground (arith, all-append p s t)

digits-all :
    (p : ℕ → Bool) (s : Bytes)
    → ((c : ℕ) → is_digit c ≡ true → p c ≡ true)
    → all is_digit s ≡ true
    → all p s ≡ true
digits-all p [] f h = refl
digits-all p (c ∷ s) f h = ground (arith, f c, digits-all p s f)

digits-no_newline : (s : Bytes) → all is_digit s ≡ true → has_byte 10 s ≡ false
unfolding has_byte
digits-no_newline [] h = refl
digits-no_newline (c ∷ s) h = ground (arith, h, digits-no_newline s)

atoi-digits :
    (s : Bytes) (n : ℕ)
    → all is_digit s ≡ true
    → 0 < length s
    → read_decimal s ≡ some n
    → n < 2 ^ 63
    → atoi s ≡ some (some n)
unfolding atoi
atoi-digits [] n h k e b = ground arith
atoi-digits (c ∷ s) n h k e b = ground (arith, e, h, b)

abbrev length_line : ℕ → Bytes
length_line n = content_length_header ++ decimal n

not_end : ℕ → Bool
not_end b = not (b == 13 || b == 10)

length_line-not_end : (n : ℕ) → all not_end (length_line n) ≡ true
unfolding not_end
length_line-not_end n = ground (
  arith,
  all-append not_end content_length_header (decimal n),
  digits-all not_end (decimal n) (λ c h. ground (arith, h)) (decimal-is_digit n),
)

trim_line-length_line : (n : ℕ) → trim_line (length_line n ++ (13 ∷ [])) ≡ length_line n
unfolding trim_line not_end
trim_line-length_line n =
    trim_right-end (λ c. c == 13 || c == 10) (length_line n) 13 (length_line-not_end n) refl

has_byte-length_line : (n : ℕ) → has_byte 10 (length_line n ++ (13 ∷ [])) ≡ false
unfolding has_byte
has_byte-length_line n = ground (
  arith,
  has_byte-append 10 (length_line n) (13 ∷ []),
  has_byte-append 10 content_length_header (decimal n),
  digits-no_newline (decimal n) (decimal-is_digit n),
)

trim_prefix-append : (p s : Bytes) → trim_prefix (p ++ s) p ≡ s
unfolding trim_prefix
trim_prefix-append p s = ground (arith, has_prefix-append p s, drop-length-append p s)

read_header_line-length_line :
    (content_length : Option ℕ) (n : ℕ)
    → n < 2 ^ 63
    → read_header_line content_length (length_line n) ≡ ok (some n)
unfolding read_header_line
read_header_line-length_line content_length n h = ground (
  arith,
  has_prefix-append content_length_header (decimal n),
  trim_prefix-append content_length_header (decimal n),
  atoi-digits (decimal n) n (decimal-is_digit n) (length-decimal n) (read_decimal-decimal n) h,
)

-- One line of the header, and what the loop does behind it.
read_header-line :
    (content_length : Option ℕ) (line t : Bytes) {l : Bytes} {n : Option ℕ}
    → trim_line line ≡ 67 ∷ l
    → read_header_line content_length (67 ∷ l) ≡ ok n
    → read_header content_length line (10 ∷ t) ≡ read_header n [] t
unfolding read_header
read_header-line content_length line t e h = ground (arith, e, h)

read_header-end :
    (content_length : Option ℕ) (t : Bytes)
    → read_header content_length [] (13 ∷ 10 ∷ t) ≡ ok (content_length, t)
unfolding read_header trim_line trim_right
read_header-end content_length t = refl

read_header-frame :
    (n : ℕ) (t : Bytes)
    → n < 2 ^ 63
    → read_header none [] (length_line n ++ (13 ∷ 10 ∷ 13 ∷ 10 ∷ t)) ≡ ok (some n, t)
read_header-frame n t h =
    ap (read_header none []) (sym (append_assoc (length_line n) (13 ∷ []) (10 ∷ 13 ∷ 10 ∷ t)))
    ∙ read_header-append none [] (length_line n ++ (13 ∷ [])) (10 ∷ 13 ∷ 10 ∷ t)
        (has_byte-length_line n)
    ∙ read_header-line none (length_line n ++ (13 ∷ [])) (13 ∷ 10 ∷ t) (trim_line-length_line n)
        (read_header_line-length_line none n h)
    ∙ read_header-end (some n) t

read_body-append :
    (body rest : Bytes) → read_body (some (length body)) (body ++ rest) ≡ ok (body, rest)
unfolding read_body
read_body-append body rest =
    ground
      (arith, take-length-append body rest, drop-length-append body rest, length-append body rest)

frame-append :
    (body rest : Bytes)
    → frame body ++ rest ≡ length_line (length body) ++ (13 ∷ 10 ∷ 13 ∷ 10 ∷ (body ++ rest))
unfolding frame
frame-append body rest =
    append_assoc content_length_header (decimal (length body) ++ (13 ∷ 10 ∷ 13 ∷ 10 ∷ body)) rest
    ∙ ap (λ t. content_length_header ++ t)
        (append_assoc (decimal (length body)) (13 ∷ 10 ∷ 13 ∷ 10 ∷ body) rest)
    ∙ sym (
        append_assoc content_length_header (decimal (length body))
          (13 ∷ 10 ∷ 13 ∷ 10 ∷ (body ++ rest)))

module _ {M : Type 0} (decode : Bytes → Option M) where
  -- A message whose body, shorter than 2 ^ 63 bytes, decodes is read back from the frame that `send`
  -- writes for this body, whatever bytes the body holds and whatever follows in the stream; exactly the bytes of the
  -- frame are used up, so the next message is read from its own start.
  pub read_message-frame :
      (body rest : Bytes) (message : M)
      → decode body ≡ some message
      → length body < 2 ^ 63
      → read_message decode (frame body ++ rest) ≡ ok (message, rest)
  unfolding read_message
  read_message-frame body rest message d h =
      let start =
        ap (λ input. read_header none [] input) (frame-append body rest)
        ∙ read_header-frame (length body) (body ++ rest) h in
      ground (arith, start, read_body-append body rest, d)
