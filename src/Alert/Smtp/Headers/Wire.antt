-- ===== src/Alert/Smtp/Headers/Wire.antt =====
-- What a reader of the mail sees of its header, after net/smtp has sent the message. Its data writer
-- makes a CR and LF out of a LF alone, so that a LF ends a line, whether or not a CR stands before
-- it; a CR alone ends no line.
use trackdown.Prelude.{
  ◌≡◌, Text, Bool, true, false, not, ◌&&◌, Option, none, some, List, [], ◌∷◌, ◌++◌, is_empty,
  if◌then◌else◌, ◌==◌, Lacks,
}

-- a line without the CR at its end
abbrev pub drop_cr : Text → Text
drop_cr [] = []
drop_cr (c ∷ []) = if c == 13 then [] else c ∷ []
drop_cr (c ∷ d ∷ s) = c ∷ drop_cr (d ∷ s)

-- The reader: lines up to the empty one, and the body after it. The line that is being read and the
-- lines so far come first.
unfoldable pub read_sent : Text → List Text → Text → Option (List Text × Text)
read_sent line lines [] = none
read_sent line lines (c ∷ s) =
    let ended = c == 10 in
    let text = drop_cr line in
    let later =
      read_sent (if ended then [] else line ++ c ∷ []) (if ended then lines ++ text ∷ [] else lines)
        s in
    if ended && is_empty text then some (lines, s) else later

-- a line of a header: it has no LF, and is not empty
abbrev IsSentLine : Text → Type 0
IsSentLine line = Lacks 10 line × (is_empty line ≡ false)

abbrev lacks_lf : Text → Bool
lacks_lf [] = true
lacks_lf (c ∷ s) = not (c == 10) && lacks_lf s
