-- ===== src/Commands/Mount/Csv/Plain.antt =====
-- Records of fields without quotes.
use containerd_attributes_cl.Base.{
  ℕ, Text, List, [], ◌∷◌, ◌++◌, nat_eq, text_eq, ok, ◌≡◌, ◌≢◌, refl, arith, All, All-append, join,
  append_assoc, append-nil, ◌∙◌, ap,
}
use containerd_attributes_cl.Commands.Mount.Csv.{
  line_ends, skip_empty_lines, start, unquoted, fields, read, read_lines,
}

-- No byte that means something to the CSV reader, but for the comma.
abbrev pub IsOneLine : ℕ → Type 0
IsOneLine c = (c ≢ b'\n') × (c ≢ 13)

abbrev pub IsPlain : Text → Type 0
IsPlain = All (λ c. (c ≢ b',') × (c ≢ b'"') × (c ≢ b'\n') × (c ≢ 13))

fields-unquoted :
    (p s field : Text) (record_ : List Text)
    → IsPlain p
    → fields (p ++ s) unquoted field record_ ≡ fields s unquoted (field ++ p) record_
unfolding fields
fields-unquoted [] s field record_ h = rw append-nil
fields-unquoted (c ∷ p) s field record_ (h, hs) =
    ground (arith, append_assoc field (c ∷ []) p, fields-unquoted p s (field ++ c ∷ []) record_ hs)

fields-comma :
    (p s : Text) (record_ : List Text)
    → IsPlain p
    → fields (p ++ b',' ∷ s) start [] record_ ≡ fields s start [] (record_ ++ p ∷ [])
unfolding fields
fields-comma [] s record_ h = ground arith
fields-comma (c ∷ p) s record_ (h, hs) =
    ground (arith, fields-unquoted p (b',' ∷ s) (c ∷ []) record_ hs)

fields-last :
    (p : Text) (record_ : List Text)
    → IsPlain p
    → fields p start [] record_ ≡ ok (record_ ++ p ∷ [])
unfolding fields
fields-last [] record_ h = refl
fields-last (c ∷ p) record_ (h, hs) =
    ground (arith, append-nil p, fields-unquoted p [] (c ∷ []) record_ hs)

fields-join :
    (p : Text) (ps record_ : List Text)
    → All IsPlain (p ∷ ps)
    → fields (join (p ∷ ps) b',') start [] record_ ≡ ok (record_ ++ p ∷ ps)
unfolding join
fields-join p [] record_ (h, _) = fields-last p record_ h
fields-join p (q ∷ ps) record_ (h, hs) =
    fields-comma p (join (q ∷ ps) b',') record_ h
    ∙ fields-join q ps (record_ ++ p ∷ []) hs
    ∙ ap ok (append_assoc record_ (p ∷ []) (q ∷ ps))

line_ends_id : (s : Text) → All IsOneLine s → line_ends s ≡ s
unfolding line_ends
line_ends_id [] h = refl
line_ends_id (c ∷ []) h = ground arith
line_ends_id (c ∷ d ∷ s) (h, hs) = ground (arith, line_ends_id (d ∷ s) hs)

skip_empty_lines_id : (s : Text) → All IsOneLine s → skip_empty_lines s ≡ s
unfolding skip_empty_lines
skip_empty_lines_id [] h = refl
skip_empty_lines_id (c ∷ s) (h, hs) = ground arith

plain-IsOneLine : (p : Text) → IsPlain p → All IsOneLine p
plain-IsOneLine [] h = tt
plain-IsOneLine (c ∷ p) ((_, _, n, r), hs) = ((n, r), plain-IsOneLine p hs)

join-IsOneLine : (ps : List Text) → All IsPlain ps → All IsOneLine (join ps b',')
unfolding join
join-IsOneLine [] h = tt
join-IsOneLine (p ∷ []) (h, _) = plain-IsOneLine p h
join-IsOneLine (p ∷ q ∷ ps) (h, hs) =
    All-append IsOneLine p (b',' ∷ join (q ∷ ps) b',') (plain-IsOneLine p h)
      (omega arith, join-IsOneLine (q ∷ ps) hs)

read_lines_head :
    (c : ℕ) (p : Text) (ps : List Text)
    → read_lines (join ((c ∷ p) ∷ ps) b',') ≡ fields (join ((c ∷ p) ∷ ps) b',') start [] []
unfolding join
read_lines_head c p [] = refl
read_lines_head c p (q ∷ ps) = refl

-- A record that is not empty, of fields without commas, quotes and line ends, is read back.
pub read-join :
    (c : ℕ) (p : Text) (ps : List Text)
    → All IsPlain ((c ∷ p) ∷ ps)
    → read (join ((c ∷ p) ∷ ps) b',') ≡ ok ((c ∷ p) ∷ ps)
unfolding read
read-join c p ps h =
    let line = join-IsOneLine ((c ∷ p) ∷ ps) h in
    ap (λ t. read_lines (skip_empty_lines t)) (line_ends_id (join ((c ∷ p) ∷ ps) b',') line)
    ∙ ap read_lines (skip_empty_lines_id (join ((c ∷ p) ∷ ps) b',') line)
    ∙ read_lines_head c p ps
    ∙ fields-join (c ∷ p) ps [] h
