-- ===== src/Blocking/Fetcher.antt =====
-- The adlist fetcher of nimbus-core/src/blocking/fetcher.rs: `parse_hosts_file` and what
-- `fetch_and_import` and the task of `start` do with it. `str::to_lowercase` and the HTTP response are
-- arguments.
pub mod Parsed
mod Tests
use nimbusdns.Common.{
  ℕ, Bool, true, false, not, ◌&&◌, ◌||◌, Option, none, some, List, [], ◌∷◌, ◌++◌, map, length, ltb,
  leb, ◌==◌, if◌then◌else◌,
}
use nimbusdns.Common.Text.{Text, same, one_of, trim, split_on, is_whitespace, cons_head}
use nimbusdns.Blocking.Wildcard.{has}
use nimbusdns.Blocking.Loading.{RegexCrate, BlockingEngine, reload}
use nimbusdns.Gravity.{GravityDb, DbResult, done, failed, replace_all_gravity}
use nimbusdns.Gravity.Select.{total_blocked}

abbrev pub min_domains : ℕ
min_domains = 1000

-- `lines`: between line feeds, without an empty last line. A carriage return before a line feed is a
-- blank, which the `trim` of each line takes away.
unfoldable pub drop_last_empty : List Text → List Text
drop_last_empty [] = []
drop_last_empty ([] ∷ []) = []
drop_last_empty ((ch ∷ line) ∷ []) = (ch ∷ line) ∷ []
drop_last_empty (line ∷ next ∷ rest) = line ∷ drop_last_empty (next ∷ rest)

unfoldable pub lines : Text → List Text
unfolding drop_last_empty split_on
lines content = drop_last_empty (split_on 10 content)

-- `split_whitespace`: the parts between blanks that are not empty.
unfoldable pub cons_word : ℕ → Bool → List Text → List Text
unfolding cons_head
cons_word ch true words = cons_head ch words
cons_word ch false words = (ch ∷ []) ∷ words

unfoldable pub starts_word : Text → Bool
unfolding is_whitespace
starts_word [] = false
starts_word (ch ∷ t) = not (is_whitespace ch)

unfoldable pub split_whitespace : Text → List Text
unfolding cons_word starts_word is_whitespace
split_whitespace [] = []
split_whitespace (ch ∷ t) =
    let rest = split_whitespace t in
    if is_whitespace ch then rest else cons_word ch (starts_word t) rest

unfoldable pub is_skipped : Text → Bool
unfolding one_of
is_skipped domain =
    one_of ("localhost" ∷ "localhost.localdomain" ∷ "broadcasthost" ∷ []) domain
    || one_of ("255.255.255.255" ∷ "::1" ∷ []) domain

unfoldable pub is_sink : Text → Bool
unfolding one_of
is_sink ip = one_of ("0.0.0.0" ∷ "127.0.0.1" ∷ []) ip

-- The domain of the words of a line, before it is put into lower case.
unfoldable pub domain_of_words : List Text → Option Text
unfolding is_sink is_skipped
domain_of_words (ip ∷ domain ∷ words) =
    if is_sink ip then if is_skipped domain then none else some domain else none
domain_of_words _ = none

unfoldable pub domain_of_trimmed : Text → Option Text
unfolding domain_of_words split_whitespace
domain_of_trimmed [] = none
domain_of_trimmed (ch ∷ line) =
    if ch == 35 then none else domain_of_words (split_whitespace (ch ∷ line))

unfoldable pub domain_of_line : Text → Option Text
unfolding domain_of_trimmed trim
domain_of_line line = domain_of_trimmed (trim line)

module _ (lower : Text → Text) where
  -- A domain that is not in the list yet is put at its end; `seen` has the elements of the list.
  unfoldable pub push_domain : Option Text → List Text → List Text
  push_domain none domains = domains
  push_domain (some d) domains = if has (lower d) domains then domains else domains ++ lower d ∷ []

  unfoldable pub parse_lines : List Text → List Text → List Text
  unfolding push_domain domain_of_line
  parse_lines [] domains = domains
  parse_lines (line ∷ rest) domains = parse_lines rest (push_domain (domain_of_line line) domains)

  unfoldable pub parse_hosts_file : Text → List Text
  unfolding parse_lines lines
  parse_hosts_file content = parse_lines (lines content) []

-- The response: an error of the connection, a status that is no success, or a body.
pub data Fetched : Type 0 where
  unreachable refused : Fetched
  body : Text → Fetched

unfoldable pub is_done : {A : Type 0} → DbResult A → Bool
is_done (done a) = true
is_done (failed e) = false

unfoldable pub import_domains : List Text → GravityDb → GravityDb × Bool
unfolding is_done
import_domains domains db =
    let replaced = replace_all_gravity domains db in
    if ltb (length domains) min_domains then (db, false) else (replaced.0, is_done replaced.1)

module _ (lower : Text → Text) where
  -- The database, and whether the list was imported.
  unfoldable pub fetch_and_import : Fetched → GravityDb → GravityDb × Bool
  unfolding import_domains parse_hosts_file
  fetch_and_import unreachable db = (db, false)
  fetch_and_import refused db = (db, false)
  fetch_and_import (body content) db = import_domains (parse_hosts_file lower content) db

module _ {Regex : Type 0} (re : RegexCrate Regex) (trim_ lower : Text → Text) where
  -- `do_fetch`: after an import the engine, if there is one, loads its lists again.
  unfoldable pub do_fetch :
      Fetched
      → GravityDb × Option (BlockingEngine Regex)
      → GravityDb × Option (BlockingEngine Regex)
  unfolding fetch_and_import
  do_fetch response (db, engine) =
      let imported = fetch_and_import lower response db in
      (
        imported.0,
        if imported.1
            then elim engine [ none ↦ none | some e ↦ some (reload re trim_ lower imported.0 e) ]
            else engine,
      )

  -- The start of the task: a fetch if the table is empty.
  unfoldable pub first_fetch :
      Fetched
      → GravityDb × Option (BlockingEngine Regex)
      → GravityDb × Option (BlockingEngine Regex)
  unfolding do_fetch total_blocked
  first_fetch response (db, engine) =
      if total_blocked db == 0 then do_fetch response (db, engine) else (db, engine)
