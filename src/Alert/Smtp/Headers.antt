-- ===== src/Alert/Smtp/Headers.antt =====
-- What a reader of the message sees of its header, where the message is sent as it is.
pub mod Wire
use trackdown.Prelude.{
  ℕ, ◌≡◌, refl, sym, ap, ◌∙◌, Text, codes, Bool, true, false, not, ◌&&◌, Option, none, some, List,
  [], ◌∷◌, ◌++◌, All, append-nil, append_assoc, is_empty, if◌then◌else◌, ◌==◌, Lacks, join_text,
  All-append, arith,
}
use trackdown.Alert.Smtp.{build_message}

-- A reader of mail: lines that end with CR and LF, up to the empty one, and the body after it. The
-- line that is being read and the lines so far come first.
unfoldable pub read_message : Text → List Text → Text → Option (List Text × Text)
read_message line lines [] = none
read_message line lines (c ∷ []) = none
read_message line lines (c ∷ d ∷ s) =
    let ended = if is_empty line then some (lines, s) else read_message [] (lines ++ line ∷ []) s in
    let later = read_message (line ++ c ∷ []) lines (d ∷ s) in
    if c == 13 && d == 10 then ended else later

-- a line of a header: it has no CR, and is not empty
abbrev pub IsLine : Text → Type 0
IsLine line = Lacks 13 line × (is_empty line ≡ false)

abbrev pub header : List Text → Text → Text
header [] body = 13 ∷ 10 ∷ body
header (line ∷ lines) body = line ++ 13 ∷ 10 ∷ header lines body

is_empty_snoc : (line : Text) (c : ℕ) → is_empty (line ++ c ∷ []) ≡ false
is_empty_snoc [] c = refl
is_empty_snoc (x ∷ line) c = refl

read_message-line :
    (read line : Text) (lines : List Text) (rest : Text)
    → Lacks 13 line
    → is_empty (read ++ line) ≡ false
    → read_message read lines (line ++ 13 ∷ 10 ∷ rest)
      ≡ read_message [] (lines ++ (read ++ line) ∷ []) rest
unfolding read_message
read_message-line read [] lines rest clean h =
    let some_line : is_empty read ≡ false = ap is_empty (sym (append-nil read)) ∙ h in
    rw some_line (ap (λ l. read_message [] (lines ++ l ∷ []) rest) (sym (append-nil read)))
read_message-line read (c ∷ []) lines rest clean h = rw clean.0 (
    read_message-line (read ++ c ∷ []) [] lines rest tt
      (ap is_empty (append-nil (read ++ c ∷ [])) ∙ is_empty_snoc read c)
    ∙ ap (λ l. read_message [] (lines ++ l ∷ []) rest) (append-nil (read ++ c ∷ [])))
read_message-line read (c ∷ d ∷ line) lines rest clean h =
    let same = append_assoc read (c ∷ []) (d ∷ line) in
    rw clean.0 (
      read_message-line (read ++ c ∷ []) (d ∷ line) lines rest clean.1 (ap is_empty same ∙ h)
      ∙ ap (λ l. read_message [] (lines ++ l ∷ []) rest) same)

read_message-header :
    (done lines : List Text) (body : Text)
    → All IsLine lines
    → read_message [] done (header lines body) ≡ some (done ++ lines, body)
unfolding read_message
read_message-header done [] body h = rw (append-nil done) refl
read_message-header done (line ∷ lines) body h =
    read_message-line [] line done (header lines body) h.0.0 h.0.1
    ∙ read_message-header (done ++ line ∷ []) lines body h.1
    ∙ ap (λ ls. some (ls, body)) (append_assoc done (line ∷ []) lines)

abbrev lacks_cr : Text → Bool
lacks_cr [] = true
lacks_cr (c ∷ s) = not (c == 13) && lacks_cr s

lacks_cr_sound : (s : Text) → lacks_cr s ≡ true → Lacks 13 s
lacks_cr_sound [] h = tt
lacks_cr_sound (c ∷ s) h = (ground arith, lacks_cr_sound s (ground arith))

prefixed-IsLine :
    (p : Text) (c : ℕ) (text : Text) → Lacks 13 (c ∷ p) → Lacks 13 text → IsLine ((c ∷ p) ++ text)
prefixed-IsLine p c text h k =
    (All-append (λ x. (x == 13) ≡ false) (λ _. true) (c ∷ p) text h k, refl)

pub join_text-Lacks :
    (k : ℕ) (texts : List Text)
    → Lacks k (codes ", ")
    → All (Lacks k) texts
    → Lacks k (join_text (codes ", ") texts)
join_text-Lacks k [] comma h = tt
join_text-Lacks k (t ∷ []) comma h = h.0
join_text-Lacks k (t ∷ u ∷ ts) comma h =
    All-append (λ x. (x == k) ≡ false) (λ _. true) (t ++ codes ", ")
      (join_text (codes ", ") (u ∷ ts))
      (All-append (λ x. (x == k) ≡ false) (λ _. true) t (codes ", ") h.0 comma)
      (join_text-Lacks k (u ∷ ts) comma h.1)

pub build_message-header :
    (from : Text) (recipients : List Text) (subject body : Text)
    → build_message from recipients subject body
      ≡ header
          ((codes "From: " ++ from)
            ∷ (codes "To: " ++ join_text (codes ", ") recipients)
            ∷ (codes "Subject: " ++ subject)
            ∷ codes "Content-Type: text/plain; charset=utf-8"
            ∷ [])
          body
unfolding build_message
build_message-header from recipients subject body = simp append_assoc

build_message-header_injected :
    (from : Text) (recipients : List Text) (start injected body : Text)
    → build_message from recipients (start ++ 13 ∷ 10 ∷ injected) body
      ≡ header
          ((codes "From: " ++ from)
            ∷ (codes "To: " ++ join_text (codes ", ") recipients)
            ∷ (codes "Subject: " ++ start)
            ∷ injected
            ∷ codes "Content-Type: text/plain; charset=utf-8"
            ∷ [])
          body
unfolding build_message
build_message-header_injected from recipients start injected body = simp append_assoc

abbrev type_line : Text
type_line = codes "Content-Type: text/plain; charset=utf-8"

type_line-IsLine : IsLine type_line
type_line-IsLine = (lacks_cr_sound (codes "Content-Type: text/plain; charset=utf-8") refl, refl)

module _ (from : Text) (recipients : List Text) (from_clean : Lacks 13 from)
    (recipients_clean : All (Lacks 13) recipients) where
  abbrev from_line : Text
  from_line = codes "From: " ++ from

  abbrev to_line : Text
  to_line = codes "To: " ++ join_text (codes ", ") recipients

  from_line-IsLine : IsLine from_line
  from_line-IsLine =
      prefixed-IsLine (codes "rom: ") 70 from (lacks_cr_sound (codes "From: ") refl) from_clean

  to_line-IsLine : IsLine to_line
  to_line-IsLine =
      prefixed-IsLine (codes "o: ") 84 (join_text (codes ", ") recipients)
        (lacks_cr_sound (codes "To: ") refl)
        (join_text-Lacks 13 recipients (refl, (refl, tt)) recipients_clean)

  -- A subject that holds a line break is written as it is, so the reader sees a fifth line of the
  -- header, which the subject's author has chosen.
  pub read_message-build_message_injected :
      (start injected body : Text)
      → Lacks 13 start
      → IsLine injected
      → read_message [] [] (build_message from recipients (start ++ 13 ∷ 10 ∷ injected) body)
        ≡ some (
          (codes "From: " ++ from)
              ∷ (codes "To: " ++ join_text (codes ", ") recipients)
              ∷ (codes "Subject: " ++ start)
              ∷ injected
              ∷ codes "Content-Type: text/plain; charset=utf-8"
              ∷ [],
          body,
        )
  read_message-build_message_injected start injected body clean line =
      ap (read_message [] []) (build_message-header_injected from recipients start injected body)
      ∙ read_message-header [] _ body (
        from_line-IsLine,
        (
          to_line-IsLine,
          (
            prefixed-IsLine (codes "ubject: ") 83 start (lacks_cr_sound (codes "Subject: ") refl)
                clean,
            (line, (type_line-IsLine, tt)),
          ),
        ),
      )
