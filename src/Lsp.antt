-- ===== src/Lsp.antt =====
-- The connection to the language server: frames with a Content-Length header, and the requests that
-- wait for responses (internal/lsp/jsonrpc.go).
mod Frame
mod Connection
mod Pending
mod Replies
mod Tests
use rwx.Prelude.{
  ℕ, ◌+◌, ◌^◌, Bool, true, false, not, ◌&&◌, ◌||◌, Option, none, some, List, [], ◌∷◌, ◌++◌, ◌==◌,
  nat_eq, Bytes, bytes_eq, bytes_beq, codes, has_prefix, trim_prefix, trim_right, take, drop,
  length, ltb, leb, if◌then◌else◌, ◌≡◌, refl, arith,
}
use rwx.Prelude.Dict.{Dict, get, put, del}
use rwx.Prelude.Decimal.{decimal, read_decimal}
use rwx.Prelude.Result.{Result, ok, err, ◌>>=◌}

abbrev content_length_header : Bytes
content_length_header = codes "Content-Length: "

-- The frame that `send` writes around an encoded message.
unfoldable pub frame : Bytes → Bytes
unfolding decimal
frame body = content_length_header ++ decimal (length body) ++ (13 ∷ 10 ∷ 13 ∷ 10 ∷ body)

pub data FrameError : Type 0 where
  end_of_input : FrameError
  invalid_length : Bytes → FrameError
  missing_length : FrameError
  short_body : FrameError
  not_a_message : FrameError

-- strconv.Atoi: a sign and digits, within 64 bits; `some none` is a negative number.
in_range : ℕ → Option ℕ → Option ℕ
in_range bound none = none
in_range bound (some n) = if ltb n bound then some n else none

unfoldable pub atoi : Bytes → Option (Option ℕ)
unfolding read_decimal in_range
atoi [] = none
atoi (c ∷ s) =
    if c == 45
    then elim (in_range (2 ^ 63 + 1) (read_decimal s)) [
      | none ↦ none
      | some n ↦ if n == 0 then some (some 0) else some none
    ]
    else if c == 43
    then elim (in_range (2 ^ 63) (read_decimal s)) [ none ↦ none | some n ↦ some (some n) ]
    else elim (in_range (2 ^ 63) (read_decimal (c ∷ s))) [ none ↦ none | some n ↦ some (some n) ]

-- One line of the header: the length so far, `none` while it is negative.
unfoldable pub read_header_line : Option ℕ → Bytes → Result FrameError (Option ℕ)
unfolding atoi has_prefix trim_prefix
read_header_line content_length line =
    if has_prefix line content_length_header
    then elim (atoi (trim_prefix line content_length_header)) [
      | none ↦ err (invalid_length (trim_prefix line content_length_header))
      | some n ↦ ok n
    ]
    else ok content_length

-- strings.TrimRight(line, "\r\n")
unfoldable pub trim_line : Bytes → Bytes
unfolding trim_right
trim_line line = trim_right (λ c. c == 13 || c == 10) line

-- The loop over the header's lines; `line` is what ReadString has read of the line so far.
unfoldable pub read_header : Option ℕ → Bytes → Bytes → Result FrameError (Option ℕ × Bytes)
unfolding read_header_line trim_line
read_header content_length line [] = err end_of_input
read_header content_length line (c ∷ input) =
    let more = read_header content_length (line ++ (c ∷ [])) input in
    let later : Result FrameError (Option ℕ) → Result FrameError (Option ℕ × Bytes) =
      λ length_read. length_read >>= λ n. read_header n [] input in
    if c == 10
    then elim (trim_line line) [
      | [] ↦ ok (content_length, input)
      | b ∷ rest ↦ later (read_header_line content_length (b ∷ rest))
    ]
    else more

-- io.ReadFull of the body
unfoldable pub read_body : Option ℕ → Bytes → Result FrameError (Bytes × Bytes)
read_body none input = err missing_length
read_body (some n) input =
    if leb n (length input) then ok (take n input, drop n input) else err short_body

module _ {M : Type 0} (decode : Bytes → Option M) where
  -- `readMessage`; `decode` is json.Unmarshal.
  unfoldable pub read_message : Bytes → Result FrameError (M × Bytes)
  unfolding read_header read_body
  read_message input = do
    header ← read_header none [] input
    let (content_length, after_header) = header
    body ← read_body content_length after_header
    let (text, rest) = body
    elim (decode text) [ none ↦ err not_a_message | some m ↦ ok (m, rest) ]
