-- ===== src/Blocking/Fetcher/Tests.antt =====
-- A hosts file of a few lines.
use nimbusdns.Common.{◌≡◌, refl, true, false, [], ◌∷◌, ◌++◌, any, map, ltb, length, if◌then◌else◌}
use nimbusdns.Common.Text.{Text, codes, to_ascii_lowercase}
use nimbusdns.Blocking.Fetcher.{
  domain_of_line, parse_hosts_file, lines, fetch_and_import, body, min_domains,
}
use nimbusdns.Blocking.Fetcher.Parsed.{gives, parse_hosts_file-Distinct, fetch_and_import_all}
use nimbusdns.Blocking.Lists.Updates.{Distinct}
use nimbusdns.Blocking.Wildcard.{has}
use nimbusdns.Gravity.{empty_tables}

abbrev line_feed : Text
line_feed = 10 ∷ []

-- A comment, a name with a comment after it, the same in capitals, and two lines that do not count.
abbrev content : Text
content =
    codes "# hosts"
    ++ line_feed
    ++ codes "0.0.0.0 ads.com # x"
    ++ line_feed
    ++ codes " 127.0.0.1   ADS.com"
    ++ line_feed
    ++ codes "0.0.0.0 localhost"
    ++ line_feed
    ++ codes "1.2.3.4 b.com"

one_domain : parse_hosts_file to_ascii_lowercase content ≡ codes "ads.com" ∷ []
unfolding parse_hosts_file to_ascii_lowercase has
one_domain = refl

parse_hosts_file-Distinct_example :
    Distinct (parse_hosts_file to_ascii_lowercase content)
    × (has (codes "ads.com") (parse_hosts_file to_ascii_lowercase content)
        ≡ any
            (λ line. gives to_ascii_lowercase (codes "ads.com") (domain_of_line line))
            (lines content))
parse_hosts_file-Distinct_example =
    parse_hosts_file-Distinct to_ascii_lowercase content (codes "ads.com")

fetch_and_import_all_example : fetch_and_import to_ascii_lowercase (body content) empty_tables ≡ (
    if ltb (length (parse_hosts_file to_ascii_lowercase content)) min_domains
    then (empty_tables, false)
    else (
      record empty_tables {
        gravity = map (λ d. (d, 0)) (parse_hosts_file to_ascii_lowercase content);
      },
      true,
    ))
fetch_and_import_all_example = fetch_and_import_all to_ascii_lowercase content empty_tables
