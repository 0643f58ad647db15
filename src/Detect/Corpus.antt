-- ===== src/Detect/Corpus.antt =====
-- morf/detect/detect.go: the scan of a set of roots with ripgrep, `ScanCorpus` and `ScanCorpusText`.
-- ripgrep, the file system and the text functions are arguments. A line number is a natural number.
use Prim.Native.String
use morf.Prelude.{
  ℕ, String, Bool, true, false, Option, none, some, List, [], ◌∷◌, ◌++◌, if◌then◌else◌, str_eq, ltb,
  select,
}
use morf.Finding.{SecretModel}
use morf.Command.{Process, RunError, ExitCode, exit_code_of, run_with_context_stream}
use morf.Detect.Patterns.{
  Regexps, PatternCache, PatternTexts, SecretPatterns, FileInfo, Caches, get_pattern_cache,
}
use morf.Detect.Lines.{LineTexts, findings_for_line}

pub record ScanOptions : Type 0 where
  pub text : Bool
  pub extra_excludes : List String
  -- 0 for a setting that is not positive
  pub max_file_size_mb : ℕ

pub data ScanFailure : Type 0 where
  create_pattern_file write_pattern_file close_pattern_file : ScanFailure
  ripgrep_failed : ExitCode → ScanFailure

pub data Scanned (F : Type 0) : Type 0 where
  findings : List (SecretModel F) → Scanned F
  failed : ScanFailure → Scanned F

-- what becomes of the temporary file that holds the patterns
pub data PatternFile : Type 0 where
  written : String → PatternFile
  unwritten : ScanFailure → PatternFile

pub record Tools : Type 0 where
  pub is_dir : String → Bool
  pub pattern_file : String → PatternFile
  pub rg : List String → Process
  pub to_string : List ℕ → String
  pub atoi : String → Option ℕ
  pub print_int : ℕ → String

abbrev pub exclude_globs : List String
exclude_globs =
    "-g" ∷ "!**/res/drawable*/**" ∷ "-g" ∷ "!**/res/mipmap*/**" ∷ "-g" ∷ "!**/res/color*/**" ∷ "-g"
    ∷ "!**/res/anim*/**" ∷ "-g" ∷ "!**/res/animator*/**" ∷ "-g" ∷ "!**/res/font*/**" ∷ []

module _ (tools : Tools) where
  abbrev text_args : ScanOptions → List String
  text_args opts =
      if opts.text
      then "-a"
        ∷ "-o"
        ∷ (if ltb 0 opts.max_file_size_mb
            then "--max-filesize" ∷ String.◌++◌ (tools.print_int opts.max_file_size_mb) "M" ∷ []
            else [])
      else []

  unfoldable pub build_rg_args : String → List String → List String → ScanOptions → List String
  build_rg_args pattern_file_path excludes existing opts =
      ("-n" ∷ "--file" ∷ pattern_file_path ∷ [])
      ++ (text_args opts ++ (excludes ++ (opts.extra_excludes ++ existing)))

  module _ (texts : LineTexts) where
    -- file, line number and content of a line that ripgrep -n prints
    abbrev numbered : String → String → Option ℕ → Option (String × ℕ × String)
    numbered file content none = none
    numbered file content (some n) = some (file, n, texts.trim_space content)

    abbrev fields : List String → Option (String × ℕ × String)
    fields (file ∷ number ∷ content ∷ rest) = numbered file content (tools.atoi number)
    fields parts = none

    abbrev pub parse_hit : List ℕ → Option (String × ℕ × String)
    parse_hit b =
        let line = texts.trim_space (tools.to_string b) in
        if str_eq line "" then none else fields (texts.split_n line ":" 3)

    module _ (regexps : Regexps) {F : Type 0} (no_score : F) where
      abbrev pub hit_findings :
          PatternCache regexps → Option (String × ℕ × String) → List (SecretModel F)
      hit_findings c none = []
      hit_findings c (some (file, number, content)) =
          findings_for_line regexps texts no_score file number c content

      abbrev pub on_line :
          PatternCache regexps → List ℕ → List (SecretModel F) → Bool × List (SecretModel F)
      on_line c b out = (true, out ++ hit_findings c (parse_hit b))

      abbrev pub after_exit : ExitCode → List (SecretModel F) → Scanned F
      after_exit (ExitCode.status n) out =
          if ltb 0 n
          then (if ltb 1 n then failed (ripgrep_failed (ExitCode.status n)) else findings [])
          else failed (ripgrep_failed (ExitCode.status n))
      after_exit code out = failed (ripgrep_failed code)

      abbrev pub concluded : Option RunError × List (SecretModel F) → Scanned F
      concluded (none, out) = findings out
      concluded (some e, out) = after_exit (exit_code_of (some e)) out

      abbrev pub run_rg : PatternCache regexps → Process → Option RunError × List (SecretModel F)
      run_rg c p = run_with_context_stream (on_line c) p []

      abbrev pub with_pattern_file :
          PatternCache regexps → List String → ScanOptions → PatternFile → Scanned F
      with_pattern_file c existing opts (unwritten e) = failed e
      with_pattern_file c existing opts (written path) =
          concluded (run_rg c (tools.rg (build_rg_args path exclude_globs existing opts)))

      abbrev scan_existing : PatternCache regexps → List String → ScanOptions → Scanned F
      scan_existing c [] opts = findings []
      scan_existing c (root ∷ roots) opts =
          with_pattern_file c (root ∷ roots) opts (tools.pattern_file c.patterns_txt)

      abbrev scan_with : List String → ScanOptions → Option (PatternCache regexps) → Scanned F
      scan_with roots opts none = findings []
      scan_with roots opts (some c) = scan_existing c (select tools.is_dir roots) opts

      module _ (pattern_texts : PatternTexts) (read_patterns : String → Option SecretPatterns)
          (files : List FileInfo) where
        abbrev pub cached :
            String
            → Caches regexps pattern_texts read_patterns
            → Option (PatternCache regexps) × Caches regexps pattern_texts read_patterns
        cached platform caches =
            get_pattern_cache regexps pattern_texts read_patterns files platform caches

        -- the caches are returned, too
        unfoldable pub scan_corpus_with_opts :
            List String
            → String
            → ScanOptions
            → Caches regexps pattern_texts read_patterns
            → Scanned F × Caches regexps pattern_texts read_patterns
        unfolding findings_for_line get_pattern_cache run_with_context_stream exit_code_of
            build_rg_args
        scan_corpus_with_opts roots platform opts caches =
            let (c, caches') = cached platform caches in (scan_with roots opts c, caches')

        abbrev pub scan_corpus :
            List String
            → String
            → Caches regexps pattern_texts read_patterns
            → Scanned F × Caches regexps pattern_texts read_patterns
        scan_corpus roots platform =
            scan_corpus_with_opts roots platform
              (record { text = false; extra_excludes = []; max_file_size_mb = 0 })

        abbrev pub scan_corpus_text :
            List String
            → String
            → List String
            → ℕ
            → Caches regexps pattern_texts read_patterns
            → Scanned F × Caches regexps pattern_texts read_patterns
        scan_corpus_text roots platform extra_excludes binary_pass_max_file_size_mb =
            scan_corpus_with_opts roots platform (record {
              text = true;
              extra_excludes = extra_excludes;
              max_file_size_mb = binary_pass_max_file_size_mb;
            })
