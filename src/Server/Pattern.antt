-- ===== src/Server/Pattern.antt =====
-- smtp_proj/server/src/pattern.c and include/pattern.h. The library pcre is a parameter. A compiled
-- pattern is known by its text, and a match gives the substrings that it captured, the whole match
-- first, as many as the count that `pcre_exec` returns.
use pvs_course_project.Base.{
  ℕ, Bool, List, [], ◌∷◌, Option, none, some, String, Bytes, get_elem?, if◌then◌else◌,
}
use pvs_course_project.Base.Int.{ℤ, pos, negsuc}

pub data PatternType : Type 0 where
  pt_start pt_quit pt_rset pt_vrfy pt_helo pt_ehlo pt_mail pt_rcpt : PatternType
  pt_data pt_data_end pt_data_recv pt_email pt_end : PatternType

pub record Pcre : Type 0 where
  pub compiles : String → Bool
  pub exec : String → Bytes → Option (List Bytes)

-- The texts that `pattern_init` compiles.
abbrev pub pattern_text : PatternType → String
pattern_text pt_quit = "^[Qq][Uu][Ii][Tt][\\r\\n]?$"
pattern_text pt_rset = "^[Rr][Ss][Ee][Tt][\\r\\n]?$"
pattern_text pt_vrfy = "^[Vv][Rr][Ff][Yy] (.+?)[\\r\\n]?$"
pattern_text pt_helo = "^[Hh][Ee][Ll][Oo] (.+?)[\\r\\n]?$"
pattern_text pt_ehlo = "^[Ee][Hh][Ll][Oo] (.+?)[\\r\\n]?$"
pattern_text pt_mail = "^[Mm][Aa][Ii][Ll]\\s[Ff][Rr][Oo][Mm]:\\s?[<]?(.+?)[>]?[\\r\\n]?$"
pattern_text pt_rcpt = "^[Rr][Cc][Pp][Tt]\\s[Tt][Oo]:\\s?[<]?(.+?)[>]?[\\r\\n]?$"
pattern_text pt_data = "^[Dd][Aa][Tt][Aa][\\r\\n]?$"
pattern_text pt_data_end = "^[\\r\\n]?[.][\\r\\n]?$"
pattern_text pt_data_recv = "(.*)"
pattern_text pt_email = "^(.+?)@(.+?)$"
pattern_text _ = ""

-- The values from PT_START + 1 to PT_END - 1, in the order of the enumeration.
abbrev compiled_types : List PatternType
compiled_types =
    pt_quit ∷ pt_rset ∷ pt_vrfy ∷ pt_helo ∷ pt_ehlo ∷ pt_mail ∷ pt_rcpt ∷ pt_data ∷ pt_data_end
    ∷ pt_data_recv ∷ pt_email ∷ []

-- `patterns.re`; a null entry is `none`.
abbrev pub Patterns : Type 0
Patterns = PatternType → Option String

PatternType-discrete : Discrete PatternType
PatternType-discrete = hlevel

abbrev put : PatternType → String → Patterns → Patterns
put t re patterns u = elim (PatternType-discrete t u) [ yes e ↦ some re | no n ↦ patterns u ]

module _ (pcre : Pcre) where
  compile_from : List PatternType → Patterns → Patterns × ℤ
  compile_from [] patterns = (patterns, pos 0)
  compile_from (i ∷ types) patterns =
      let rest = compile_from types (put i (pattern_text i) patterns) in
      if pcre.compiles (pattern_text i) then rest else (patterns, negsuc 0)

  unfoldable pattern_init : Patterns → Patterns × ℤ
  unfolding compile_from PatternType-discrete
  pattern_init patterns = compile_from compiled_types patterns

  -- `pcre_exec` returns an error for a null pattern, as it does where nothing matches.
  abbrev pcre_exec : Option String → Bytes → Option (List Bytes)
  pcre_exec none buf = none
  pcre_exec (some re) buf = pcre.exec re buf

-- `pcre_get_substring` leaves the target alone where the match has no such substring.
abbrev pcre_get_substring : List Bytes → ℕ → Option Bytes → Option Bytes
pcre_get_substring groups n old = elim (get_elem? groups n) [ none ↦ old | some text ↦ some text ]

abbrev computed : Option (List Bytes) → Option Bytes → ℤ × Option Bytes
computed none content = (negsuc 0, content)
computed (some groups) content = (pos 0, pcre_get_substring groups 1 content)

-- The result of `pattern_email`: the null pointer, or two pointers, which `malloc` leaves unset.
abbrev emails : Option (List Bytes) → Option (Option Bytes × Option Bytes)
emails none = none
emails (some groups) = some (pcre_get_substring groups 1 none, pcre_get_substring groups 2 none)

module _ (pcre : Pcre) (patterns : Patterns) where
  unfoldable pub pattern_compute : PatternType → Bytes → Option Bytes → ℤ × Option Bytes
  pattern_compute type buf content = computed (pcre_exec pcre (patterns type) buf) content

  unfoldable pub pattern_email : Bytes → Option (Option Bytes × Option Bytes)
  pattern_email buf = emails (pcre_exec pcre (patterns pt_email) buf)
