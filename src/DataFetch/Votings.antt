-- ===== src/DataFetch/Votings.antt =====
-- backend/cmd/data-fetch/main.go: the votations that are fetched, and the seeds of their crawl. An instant
-- is a number; `parse_date` is parseISODate.
pub mod Selected
use civika.Prelude.{
  ℕ, suc, ◌+◌, Bool, true, false, Option, none, some, List, [], ◌∷◌, ◌++◌, map, keep, length, take,
  ltb, leb, if◌then◌else◌,
}
use civika.Prelude.Int.{ℤ, pos, pos_part, ltb_ℤ}
use civika.Text.{Str, codes, eqb, trim_space, itoa}
use civika.GoMap.{Map}
use civika.DataFetch.Crawl.{CrawlNode}

pub record OpLinkSet : Type 0 where
  pub affairs : Str
  pub votes : Str
  pub meeting : Str
  pub bodies : Str

pub record OpVoting : Type 0 where
  pub id : ℤ
  pub url_api : Str
  pub body_key : Str
  pub external_id : Str
  pub date : Str
  pub title : Map Str
  pub affair_id : ℤ
  pub affair_title : Map Str
  pub meaning_of_yes : Map Str
  pub meaning_of_no : Map Str
  pub links : OpLinkSet
  pub selection_cause : Str

unfoldable pub is_future_voting : (Str → Option ℤ) → Str → ℤ → Bool
is_future_voting parse_date date now = elim (parse_date date) [
  | none ↦ false
  | some t ↦ ltb_ℤ now t
]

abbrev pub with_cause : Str → OpVoting → OpVoting
with_cause cause v = record v { selection_cause = cause }

-- The loop that ends after `max_count` votations, or after one if that is not positive.
unfoldable pub first_votings : ℕ → List OpVoting → List OpVoting
first_votings max_count votings = take (if leb max_count 1 then 1 else max_count) votings

-- `selectVotings`, for a limit that is positive.
unfoldable pub select_votings : (Str → Option ℤ) → List OpVoting → ℤ → ℕ → List OpVoting × Str
unfolding is_future_voting first_votings
select_votings parse_date votings now max_count =
    let futures =
      map (with_cause (codes "future"))
        (keep (λ v. is_future_voting parse_date v.date now) votings) in
    if ltb 0 (length futures)
    then (
      if ltb max_count (length futures) then take max_count futures else futures,
      codes "future",
    )
    else (
      map (with_cause (codes "fallback_past")) (first_votings max_count votings),
      codes "fallback_past",
    )

-- `push` of buildVotingSeedURLs.
unfoldable pub push_seed : Str → Str → List CrawlNode → List CrawlNode
unfolding trim_space
push_seed raw_url name seeds =
    let u = trim_space raw_url in
    if eqb u [] then seeds else seeds ++ record { url = u; depth = 0; name = name } ∷ []

unfoldable pub build_voting_seed_urls : OpVoting → List CrawlNode
unfolding push_seed trim_space itoa
build_voting_seed_urls voting =
    let seeds = push_seed voting.links.bodies (codes "bodies") (
      push_seed voting.links.meeting (codes "meeting") (
        push_seed voting.links.votes (codes "votes") (
          push_seed voting.links.affairs (codes "affairs")
            (push_seed voting.url_api (codes "voting") [])))) in
    if eqb (trim_space voting.links.affairs) []
    then seeds
      ++ record {
        url =
            codes "https://api.openparldata.ch/v1/votings/" ++ (itoa voting.id ++ codes "/affairs");
        depth = 0;
        name = codes "affairs-fallback";
      }
        ∷ []
    else seeds
