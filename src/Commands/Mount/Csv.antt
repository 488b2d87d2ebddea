-- ===== src/Commands/Mount/Csv.antt =====
-- The first record that csv.NewReader(…).Read() gives, with the reader's default settings: fields
-- are separated by commas, a field may be quoted, empty lines are skipped.
pub mod Plain
use containerd_attributes_cl.Base.{
  ℕ, Text, lit, List, [], ◌∷◌, ◌++◌, Bool, true, false, if◌then◌else◌, ◌==◌, nat_eq, Error, message,
  Result, ok, err, ◌≡◌, ◌≢◌, refl, arith, All, join, append_assoc, append-nil, ◌∙◌, sym, ap,
}

-- A line may end in "\r\n", and a "\r" at the end of the input is dropped.
pub line_ends : Text → Text
line_ends [] = []
line_ends (c ∷ []) = if c == 13 then [] else c ∷ []
line_ends (c ∷ d ∷ s) =
    let rest = line_ends (d ∷ s) in
    if c == 13 then (if d == b'\n' then rest else c ∷ rest) else c ∷ rest

pub skip_empty_lines : Text → Text
skip_empty_lines [] = []
skip_empty_lines (c ∷ s) = let rest = skip_empty_lines s in if c == b'\n' then rest else c ∷ s

-- Where the reader is: before a field, in one, in a quoted one, or behind a quote in a quoted one.
pub data Mode : Type 0 where
  start unquoted quoted quote_seen : Mode

abbrev bare_quote : Error
bare_quote = message (lit "bare \" in non-quoted-field")

abbrev lone_quote : Error
lone_quote = message (lit "extraneous or missing \" in quoted-field")

pub fields : Text → Mode → Text → List Text → Result (List Text)
fields [] start field record_ = ok (record_ ++ [] ∷ [])
fields [] unquoted field record_ = ok (record_ ++ field ∷ [])
fields [] quoted field record_ = err lone_quote
fields [] quote_seen field record_ = ok (record_ ++ field ∷ [])
fields (c ∷ s) start field record_ =
    let next = fields s start [] (record_ ++ [] ∷ []) in
    let enter = fields s quoted [] record_ in
    let go_on = fields s unquoted (c ∷ []) record_ in
    if c == b'"'
    then enter
    else if c == b','
    then next
    else if c == b'\n'
    then ok (record_ ++ [] ∷ [])
    else go_on
fields (c ∷ s) unquoted field record_ =
    let next = fields s start [] (record_ ++ field ∷ []) in
    let go_on = fields s unquoted (field ++ c ∷ []) record_ in
    if c == b'"'
    then err bare_quote
    else if c == b','
    then next
    else if c == b'\n'
    then ok (record_ ++ field ∷ [])
    else go_on
fields (c ∷ s) quoted field record_ =
    let close = fields s quote_seen field record_ in
    let go_on = fields s quoted (field ++ c ∷ []) record_ in if c == b'"' then close else go_on
fields (c ∷ s) quote_seen field record_ =
    let reopen = fields s quoted (field ++ c ∷ []) record_ in
    let next = fields s start [] (record_ ++ field ∷ []) in
    if c == b'"'
    then reopen
    else if c == b','
    then next
    else if c == b'\n'
    then ok (record_ ++ field ∷ [])
    else err lone_quote

abbrev read_lines : Text → Result (List Text)
read_lines [] = err (message (lit "EOF"))
read_lines (c ∷ s) = fields (c ∷ s) start [] []

unfoldable pub read : Text → Result (List Text)
unfolding line_ends skip_empty_lines fields
read s = read_lines (skip_empty_lines (line_ends s))
