-- ===== src/Logger/Examples.antt =====
-- Concrete log lines.
use dove.Base.{
  ◌≡◌, refl, true, false, none, some, List, [], ◌∷◌, ◌++◌, codes, bytes_beq, nat_eq, bytes_eq,
  contains,
}
use dove.Base.Dict.{lookup, insert}
use dove.Base.Text.{trim_right, to_lower, split}
use dove.Logger.{
  create_logger, get_logger, get_format_header, log_filename, log_text, content, write,
}
use dove.Base.Decimal.{itoa}
use dove.Util.{in_array_string}
use dove.Watcher.Local.{base_of}
use dove.Logger.Files.{Written, write_each, texts_of, write_each-texts}

abbrev writes : List Written
writes =
    record {
      suffix = codes "2016-01-02";
      logger = create_logger (codes "/log/") (codes "INFO");
      text = codes "up\n";
    }
    ∷ record {
      suffix = codes "2016-01-02";
      logger = create_logger (codes "/log") (codes "ERROR");
      text = codes "down\n";
    }
    ∷ []

write_each-texts_example :
    content (codes "/log/all.2016-01-02.log") (write_each true (λ n. true) writes [])
    ≡ content (codes "/log/all.2016-01-02.log") []
      ++ texts_of true (λ n. true) (codes "/log/all.2016-01-02.log") writes
write_each-texts_example =
    write_each-texts true (λ n. true) writes (codes "/log/all.2016-01-02.log") []

single_file :
    content (codes "/log/all.2016-01-02.log") (write_each true (λ n. true) writes [])
    ≡ codes "[INFO] up\n[ERROR] down\n"
unfolding write lookup insert bytes_beq log_filename trim_right create_logger contains log_text
single_file = refl

own_file :
    content (codes "/log/info.2016-01-02.log") (write_each false (λ n. true) writes [])
    ≡ codes "up\n"
unfolding write lookup insert bytes_beq log_filename trim_right create_logger contains to_lower
    log_text
own_file = refl

-- The number that is returned counts the level in as well.
counts_level :
    (write true
      (create_logger (codes "/log") (codes "INFO")).out
      (codes "2016-01-02")
      (λ n. true)
      99
      (codes "up\n")
      []).0
    ≡ 10
unfolding write log_text create_logger
counts_level = refl

unknown_level : get_logger (codes "/log") (codes "DEBUG") [] ≡ none
unfolding get_logger in_array_string bytes_beq
unknown_level = refl

header :
    get_format_header (create_logger [] (codes "INFO")) (some (codes "/go/src/main.go", 42))
    ≡ codes "main.go:42:"
unfolding get_format_header create_logger base_of split itoa
header = refl
