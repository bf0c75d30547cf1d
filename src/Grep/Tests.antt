-- ===== src/Grep/Tests.antt =====
-- The matcher at concrete patterns.
use strace_xv.Base.{◌≡◌, refl, ◌↔◌, true, false}
use strace_xv.Text.{chars}
use strace_xv.Grep.{matchstar, matchhere, match_from, match_}
use strace_xv.Grep.Regex.{Matches, match_iff}

match_iff_example :
    (match_ (chars "^a.*d$") (chars "abcd") ≡ true) ↔ Matches (chars "^a.*d$") (chars "abcd")
match_iff_example = match_iff (chars "^a.*d$") (chars "abcd")

match-start : match_ (chars "^a.*d$") (chars "abcd") ≡ true
unfolding match_ matchhere matchstar
match-start = refl

match-tail : match_ (chars "c*d$") (chars "abde") ≡ false
unfolding match_ match_from matchhere matchstar
match-tail = refl
