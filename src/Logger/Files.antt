-- ===== src/Logger/Files.antt =====
-- What the log files hold behind a run of the writes of logger/logger.go.
use dove.Base.{
  ◌≡◌, refl, sym, ap, ◌∙◌, inl, inr, Bool, true, false, ◌&&◌, Option, none, some, List, [], ◌∷◌,
  ◌++◌, append_assoc, append-nil, arith, if◌then◌else◌, Bool-cases, length, take, take_all, ◌==◌,
  Bytes, codes, bytes_beq_iff, nat_eq, bytes_eq, beq_refl,
}
use dove.Base.Dict.{Dict, insert, lookup-insert}
use dove.Base.Text.{trim_right, to_lower}
use dove.Logger.{
  CoSafeLogger, log_filename, log_text, write, content, get_logger, get_logger_by_level,
  add_to_loggers, create_logger,
}

-- A write: the date, the logger that does it, and what it writes.
pub record Written : Type 0 where
  pub suffix : Bytes
  pub logger : CoSafeLogger
  pub text : Bytes

-- The writes one behind the other: `opens` says which files can be opened, and what is written to an open
-- file is taken whole.
abbrev pub write_each : Bool → (Bytes → Bool) → List Written → Dict Bytes Bytes → Dict Bytes Bytes
write_each as_single_file opens [] files = files
write_each as_single_file opens (w ∷ more) files =
    let room = length (log_text as_single_file w.logger.out w.text) in
    let files' : Dict Bytes Bytes =
      (write as_single_file w.logger.out w.suffix opens room w.text files).2 in
    write_each as_single_file opens more files'

-- The file `all.<date>.log` of the directory, or one for each level.
abbrev pub file_of : Bool → Written → Bytes
file_of true w =
    trim_right w.logger.out.log_dir (codes "/")
    ++ codes "/"
    ++ codes "all."
    ++ w.suffix
    ++ codes ".log"
file_of false w =
    trim_right w.logger.out.log_dir (codes "/")
    ++ codes "/"
    ++ to_lower w.logger.out.level
    ++ codes "."
    ++ w.suffix
    ++ codes ".log"

abbrev pub logged_line : Bool → Written → Bytes
logged_line true w = codes "[" ++ w.logger.out.level ++ codes "] " ++ w.text
logged_line false w = w.text

abbrev pub text_to : Bool → (Bytes → Bool) → Bytes → Written → Bytes
text_to as_single_file opens name w =
    if opens name && file_of as_single_file w == name then logged_line as_single_file w else []

-- The texts of the writes to a file that can be opened, in their order.
abbrev pub texts_of : Bool → (Bytes → Bool) → Bytes → List Written → Bytes
texts_of as_single_file opens name [] = []
texts_of as_single_file opens name (w ∷ more) =
    text_to as_single_file opens name w ++ texts_of as_single_file opens name more

file_of_lem :
    (as_single_file : Bool) (w : Written)
    → log_filename as_single_file w.logger.out w.suffix ≡ file_of as_single_file w
unfolding log_filename
file_of_lem true w = refl
file_of_lem false w = refl

line_of_lem :
    (as_single_file : Bool) (w : Written)
    → log_text as_single_file w.logger.out w.text ≡ logged_line as_single_file w
unfolding log_text
line_of_lem true w = refl
line_of_lem false w = refl

content-insert :
    (fn name v : Bytes) (files : Dict Bytes Bytes)
    → content name (insert fn v files) ≡ (if fn == name then v else content name files)
content-insert fn name v files =
    ap (λ (o : Option Bytes). elim o as (λ _. Bytes) [ none ↦ [] | some s ↦ s ])
      (lookup-insert fn name v files)
    ∙ ground arith

content-write :
    (as_single_file : Bool) (opens : Bytes → Bool) (w : Written) (name : Bytes)
    (files : Dict Bytes Bytes)
    → content name
        (write as_single_file w.logger.out w.suffix opens
          (length (log_text as_single_file w.logger.out w.text))
          w.text
          files).2
      ≡ content name files
        ++ (if opens name && log_filename as_single_file w.logger.out w.suffix == name
            then log_text as_single_file w.logger.out w.text
            else [])
unfolding write
content-write as_single_file opens w name files =
    let fn = log_filename as_single_file w.logger.out w.suffix in
    let text = log_text as_single_file w.logger.out w.text in
    let v = content fn files ++ take (length text) text in
    elim (Bool-cases (fn == name)) [
      | inl e ↦
          let same : fn ≡ name = (bytes_beq_iff fn name).0 e in
          elim (Bool-cases (opens fn)) [
            | inl o ↦
                let o' : opens name ≡ true = ap opens (sym same) ∙ o in
                rw (write, o, o', e)
                  (content-insert fn name v files
                    ∙ rw e (
                        ap (λ n. content n files ++ take (length text) text) same
                        ∙ ap (λ l. content name files ++ l)
                            (take_all text (length text) (omega arith))))
            | inr o ↦
                let o' : opens name ≡ false = ap opens (sym same) ∙ o in
                rw (write, o, o') (sym (append-nil (content name files)))
          ]
      | inr e ↦ elim (Bool-cases (opens fn)) [
        | inl o ↦
            let no : (opens name && (fn == name)) ≡ false = ground (arith, e) in
            rw (write, o, no)
              (content-insert fn name v files ∙ rw e (sym (append-nil (content name files))))
        | inr o ↦
            let no : (opens name && (fn == name)) ≡ false = ground (arith, e) in
            rw (write, o, no) (sym (append-nil (content name files)))
      ]
    ]

content-line :
    (as_single_file : Bool) (opens : Bytes → Bool) (w : Written) (name : Bytes)
    (files : Dict Bytes Bytes)
    → content name (write_each as_single_file opens (w ∷ []) files)
      ≡ content name files ++ text_to as_single_file opens name w
content-line as_single_file opens w name files =
    content-write as_single_file opens w name files
    ∙ ap
        (λ n.
          content name files
          ++ (if opens name && n == name then log_text as_single_file w.logger.out w.text else []))
        (file_of_lem as_single_file w)
    ∙ ap
        (λ l.
          content name files ++ (if opens name && file_of as_single_file w == name then l else []))
        (line_of_lem as_single_file w)

-- When what is written to an open file is taken whole, every log file holds what it held before and then,
-- if it can be opened, the texts that are written to it, each once and in their order: the file of a level
-- has the texts of this level, or `all` has every text behind `[level] ` when there is a single file.
pub write_each-texts :
    (as_single_file : Bool) (opens : Bytes → Bool) (ws : List Written) (name : Bytes)
    (files : Dict Bytes Bytes)
    → content name (write_each as_single_file opens ws files)
      ≡ content name files ++ texts_of as_single_file opens name ws
write_each-texts as_single_file opens [] name files = sym (append-nil (content name files))
write_each-texts as_single_file opens (w ∷ more) name files =
    write_each-texts as_single_file opens more name _
    ∙ ap (λ l. l ++ texts_of as_single_file opens name more)
        (content-line as_single_file opens w name files)
    ∙ append_assoc (content name files) (text_to as_single_file opens name w)
        (texts_of as_single_file opens name more)

-- A logger that was given is given again, whatever directory is set by then, and no other is made.
get_logger-again :
    (dir dir' level : Bytes) (loggers loggers' : Dict Bytes CoSafeLogger) (l : CoSafeLogger)
    → get_logger dir level loggers ≡ some (l, loggers')
    → get_logger dir' level loggers' ≡ some (l, loggers')
unfolding get_logger get_logger_by_level add_to_loggers
get_logger-again dir dir' level loggers loggers' l h =
    ground (arith, h, lookup-insert level level (create_logger dir level) loggers, beq_refl level)
