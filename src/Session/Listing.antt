-- ===== src/Session/Listing.antt =====
-- `List`, `Resolve` and `latest`. A directory is its files in order, each with what the operating
-- system answers; a path is the name in the directory. sort.Slice is an insertion sort_infos here: where
-- two sessions have one time and one ID, their order is left open by the code.
pub mod Sorted
mod Tests
use notch.Prelude.{
  ℕ, suc, ◌+◌, ◌-◌, Bool, true, false, not, ◌&&◌, ◌||◌, Option, none, some, List, [], ◌∷◌, ◌++◌,
  ltb, ◌==◌, if◌then◌else◌, length, take, drop, any,
}
use notch.Go.Bytes.{Bytes, codes, bytes_eq}
use notch.Go.Space.{trim_space}
use notch.Go.Strings.{has_prefix, bytes_lt}
use notch.Go.Json.{valid}
use notch.Session.{Result, err, ok, Header, Codec}
use notch.Session.Preview.{empty_session}
use notch.Session.Decode.{DecodeError}
use notch.Session.Load.{final_record_start, is_unterminated}
use notch.Session.Light.{Light, Lit, light_decode}

-- readRecoverableSession with `lightweight`; the recovery is not used.
unfoldable pub read_light : Codec → Bytes → Lit
unfolding final_record_start is_unterminated light_decode
read_light c f =
    let start = final_record_start f in
    if is_unterminated f && not (valid (trim_space (drop start f)))
    then light_decode c (take start f)
    else light_decode c f

pub record File : Type 0 where
  pub name : Bytes
  pub is_dir : Bool
  pub opens : Bool
  pub stats : Bool
  pub closes : Bool
  pub contents : Bytes
  pub modified_at : ℕ

pub record Info : Type 0 where
  pub path : Bytes
  pub id : Bytes
  pub cwd : Bytes
  pub modified_at : ℕ
  pub message_count : ℕ
  pub preview : Bytes

pub data ListError : Type 0 where
  read_failed : ListError
  open_failed stat_failed close_failed : Bytes → ListError

abbrev pub file_extension : Bytes
file_extension = codes ".jsonl"

abbrev pub base_of : Bytes → Bytes
base_of name = take (length name - length file_extension) name

-- strings.HasSuffix.
unfoldable pub is_session_name : Bytes → Bool
is_session_name name = bytes_eq (drop (length name - length file_extension) name) file_extension

-- strings.TrimSuffix.
unfoldable pub base : Bytes → Bytes
unfolding is_session_name
base name = if is_session_name name then base_of name else name

abbrev pub id_of : Option Header → Bytes
id_of none = []
id_of (some h) = h.id

abbrev pub cwd_of : Option Header → Bytes
cwd_of none = []
cwd_of (some h) = h.cwd

unfoldable pub info : File → Light → Info
info f l = record {
  path = f.name;
  id = id_of l.header;
  cwd = cwd_of l.header;
  modified_at = f.modified_at;
  message_count = l.message_count;
  preview = if length l.preview == 0 then empty_session else l.preview;
}

unfoldable pub or_skip : File → Lit → List Info → List Info
unfolding info
or_skip f (err e) infos = infos
or_skip f (ok l) infos = info f l ∷ infos

abbrev pub listed :
    Result ListError (List Info) → (List Info → List Info) → Result ListError (List Info)
listed (err e) f = err e
listed (ok infos) f = ok (f infos)

-- The loop, before the sort.
unfoldable pub scan_files : Codec → List File → Result ListError (List Info)
unfolding read_light or_skip is_session_name
scan_files c [] = ok []
scan_files c (f ∷ fs) =
    let rest = scan_files c fs in
    if f.is_dir || not (is_session_name f.name)
    then rest
    else if not f.opens
    then err (open_failed f.name)
    else if not f.stats
    then err (stat_failed f.name)
    else if not f.closes
    then err (close_failed f.name)
    else listed rest (or_skip f (read_light c f.contents))

unfoldable pub newer : Info → Info → Bool
unfolding bytes_lt
newer a b =
    if a.modified_at == b.modified_at then bytes_lt b.id a.id else ltb b.modified_at a.modified_at

unfoldable pub insert_info : Info → List Info → List Info
unfolding newer
insert_info i [] = i ∷ []
insert_info i (j ∷ js) = let rest = insert_info i js in if newer j i then j ∷ rest else i ∷ j ∷ js

unfoldable pub sort_infos : List Info → List Info
unfolding insert_info
sort_infos [] = []
sort_infos (i ∷ is) = insert_info i (sort_infos is)

-- `none` where the directory cannot be read.
unfoldable pub list_sessions : Codec → Option (List File) → Result ListError (List Info)
unfolding scan_files sort_infos
list_sessions c none = err read_failed
list_sessions c (some fs) = listed (scan_files c fs) sort_infos

pub data ResolveError : Type 0 where
  empty_query path_missing not_found : ResolveError
  list_failed : ListError → ResolveError
  ambiguous : ℕ → ResolveError

unfoldable pub is_exact : Bytes → Info → Bool
unfolding base
is_exact query i = bytes_eq query i.id || bytes_eq query i.path || bytes_eq query (base i.path)

unfoldable pub is_candidate : Bytes → Info → Bool
unfolding base
is_candidate query i = has_prefix i.id query || has_prefix (base i.path) query

unfoldable pub among : List Bytes → Result ResolveError Bytes
among [] = err not_found
among (path ∷ []) = ok path
among (path ∷ other ∷ more) = err (ambiguous (length more + 2))

-- The loop over the sessions, with `matches` so far.
unfoldable pub resolve_in : Bytes → List Info → List Bytes → Result ResolveError Bytes
unfolding is_exact is_candidate among
resolve_in query [] found = among found
resolve_in query (i ∷ is) found =
    let next = resolve_in query is (if is_candidate query i then found ++ i.path ∷ [] else found) in
    if is_exact query i then ok i.path else next

-- What the file system answers: filepath.Clean, and whether os.Stat finds a path.
pub record Paths : Type 0 where
  pub clean : Bytes → Bytes
  pub exists : Bytes → Bool

unfoldable pub resolve_path : Paths → Bytes → Result ResolveError Bytes
resolve_path p query =
    let path = if has_prefix query (codes "/") then query else p.clean query in
    if p.exists path then ok path else err path_missing

unfoldable pub resolve_listed : Bytes → Result ListError (List Info) → Result ResolveError Bytes
unfolding resolve_in
resolve_listed query (err e) = err (list_failed e)
resolve_listed query (ok infos) = resolve_in query infos []

-- On Unix an absolute path has a separator.
unfoldable pub resolve : Codec → Paths → Option (List File) → Bytes → Result ResolveError Bytes
unfolding resolve_path resolve_listed list_sessions trim_space
resolve c p dir query =
    let q = trim_space query in
    if length q == 0
    then err empty_query
    else if any (λ x. x == b'/') q
    then resolve_path p q
    else resolve_listed q (list_sessions c dir)

pub data LatestError : Type 0 where
  no_sessions no_match none_valid : LatestError
  not_listed : ListError → LatestError

-- The loop: `loads` is what Load gives at this time, `matched` whether a directory matched.
module _ {A : Type 0} (loads : Bytes → Option A) (clean : Bytes → Bytes) (cwd : Bytes) where
  unfoldable pub is_elsewhere : Info → Bool
  is_elsewhere i = not (length cwd == 0) && not (bytes_eq (clean i.cwd) cwd)

  unfoldable pub loaded_or : Option A → Result LatestError A → Result LatestError A
  loaded_or none next = next
  loaded_or (some a) next = ok a

  unfoldable pub latest_in : List Info → Bool → Result LatestError A
  unfolding is_elsewhere loaded_or
  latest_in [] matched =
      if not (length cwd == 0) && not matched then err no_match else err none_valid
  latest_in (i ∷ is) matched =
      let skipped = latest_in is matched in
      let next = latest_in is true in
      if is_elsewhere i then skipped else loaded_or (loads i.path) next

  unfoldable pub latest : Result ListError (List Info) → Result LatestError A
  unfolding latest_in
  latest (err e) = err (not_listed e)
  latest (ok []) = err no_sessions
  latest (ok (i ∷ is)) = latest_in (i ∷ is) false
