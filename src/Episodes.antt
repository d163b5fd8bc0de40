-- ===== src/Episodes.antt =====
-- Episodes, src/hey_robot/episode: scope.py allocates the episode of an envelope, store.py keeps the
-- records of each under its key, with the aliases of the keys. `digest` gives the hexadecimal digits of
-- SHA-256, of which 32 are used, and `sanitize` the file name of a key.
pub mod Aliases
mod Examples
use xbotics_hey_robot.Prelude.{
  ℕ, ◌+◌, ◌-◌, String, Bool, true, false, not, ◌&&◌, Option, none, some, List, [], ◌∷◌, ◌++◌, map,
  drop, length, if◌then◌else◌, or_else, ◌==◌,
}
use xbotics_hey_robot.Prelude.Dict.{lookup, insert}
use xbotics_hey_robot.Prelude.Text.{concat, join, has, lower, strip, truthy_text, sort_texts}
use xbotics_hey_robot.Protocol.{Envelope}

pub record EpisodeScope : Type 0 where
  pub agent_id : String
  pub dimensions : List String
  pub values : List (String × String)

abbrev pub default_episode_dimensions : List String
default_episode_dimensions = "channel" ∷ "chat" ∷ "sender" ∷ "robot" ∷ []

abbrev pub valid_dimensions : List String
valid_dimensions = "channel" ∷ "account" ∷ "user" ∷ "chat" ∷ "sender" ∷ "robot" ∷ "agent" ∷ []

-- `text or default` of an optional text
abbrev pub text_or_default : Option String → String → String
text_or_default none default = default
text_or_default (some text) default = if truthy_text text then text else default

unfoldable pub clean_dimensions : List String → List String → List String
unfolding has strip lower
clean_dimensions [] clean = clean
clean_dimensions (dim ∷ dims) clean =
    let name = strip (lower dim) in
    clean_dimensions dims
      (if has valid_dimensions name && not (has clean name) then clean ++ name ∷ [] else clean)

unfoldable pub dimension_value : Envelope → String → String → String
unfolding has
dimension_value e dim agent_id =
    if dim == "channel"
    then text_or_default e.channel "unknown"
    else if dim == "account"
    then text_or_default e.account_id "default"
    else if dim == "user"
    then text_or_default e.user_id (text_or_default e.sender_id "anonymous")
    else if dim == "chat"
    then concat (text_or_default e.chat_type "direct")
        (concat ":" (text_or_default e.chat_id (text_or_default e.sender_id "direct")))
    else if dim == "sender"
    then text_or_default e.sender_id "anonymous"
    else if dim == "robot"
    then text_or_default e.robot_id "none"
    else if dim == "agent"
    then agent_id
    else ""

unfoldable pub dimension_values : Envelope → String → List String → List (String × String)
unfolding dimension_value insert
dimension_values e agent_id [] = []
dimension_values e agent_id (dim ∷ dims) =
    let rest = dimension_values e agent_id dims in
    let value = dimension_value e dim agent_id in
    if truthy_text value then (dim, value) ∷ rest else rest

abbrev pub scope_part : EpisodeScope → String → String
scope_part s dim = concat dim (concat "=" (or_else (lookup dim s.values) ""))

unfoldable pub canonical_signature : EpisodeScope → String
unfolding join lookup
canonical_signature s =
    join "|" ("v1" ∷ concat "agent=" s.agent_id ∷ map (scope_part s) s.dimensions)

unfoldable pub scope_aliases : EpisodeScope → List String
unfolding join lookup
scope_aliases s =
    let compact = join ":" (map (scope_part s) s.dimensions) in
    if truthy_text compact
    then concat "agent:" (concat s.agent_id (concat ":" compact)) ∷ []
    else concat "agent:" s.agent_id ∷ []

pub record EpisodeAllocation : Type 0 where
  pub scope : EpisodeScope
  pub episode_id : String
  pub aliases : List String

unfoldable pub allocate_episode :
    (String → String) → Envelope → String → List String → EpisodeAllocation
unfolding canonical_signature scope_aliases clean_dimensions dimension_values sort_texts
allocate_episode digest e agent_id dimensions =
    let clean = sort_texts (clean_dimensions dimensions []) in
    let scope : EpisodeScope = record {
      agent_id = agent_id;
      dimensions = clean;
      values = dimension_values e agent_id clean;
    } in
    record {
      scope = scope;
      episode_id = concat "ep_v1_" (digest (canonical_signature scope));
      aliases = scope_aliases scope;
    }

-- A record of an episode, with the role, the content and the time of what it is made from.
pub record EpisodeRecord {ℓ} (P : Type ℓ) : Type ℓ where
  pub role : String
  pub content : String
  pub timestamp : ℕ
  pub payload : P

pub record Meta : Type 0 where
  pub key : String
  pub scope : EpisodeScope
  pub aliases : List String
  pub created_at : ℕ
  pub updated_at : ℕ
  pub count : ℕ

-- `metas` and `files` by the file name of the key.
pub record EpisodeStore {ℓ} (P : Type ℓ) : Type ℓ where
  pub aliases : List (String × String)
  pub metas : List (String × Meta)
  pub files : List (String × List (EpisodeRecord P))

unfoldable pub put_all : List String → String → List (String × String) → List (String × String)
unfolding insert
put_all [] key d = d
put_all (alias ∷ aliases) key d = put_all aliases key (insert alias key d)

unfoldable pub add_missing : List String → List String → List String
unfolding has
add_missing [] ts = ts
add_missing (s ∷ ss) ts = add_missing ss (if has ts s then ts else ts ++ s ∷ [])

abbrev pub next_meta : ℕ → String → EpisodeScope → List String → Option Meta → Meta
next_meta now key scope aliases none = record {
  key = key;
  scope = scope;
  aliases = aliases;
  created_at = now;
  updated_at = now;
  count = 0;
}
next_meta now key scope aliases (some m) = record m {
  aliases = sort_texts (add_missing aliases (add_missing m.aliases []));
  scope = scope;
  updated_at = now;
}

abbrev pub counted_meta :
    (String → String) → ℕ → Option Meta → List (String × Meta) → List (String × Meta)
counted_meta sanitize now none metas = metas
counted_meta sanitize now (some m) metas =
    insert (sanitize m.key) (record m { count = m.count + 1; updated_at = now }) metas

module _ {ℓ} {P : Type ℓ} (sanitize : String → String) where
  unfoldable pub resolve_alias : EpisodeStore P → String → String
  unfolding lookup
  resolve_alias s name = or_else (lookup name s.aliases) name

  unfoldable pub ensure : ℕ → String → EpisodeScope → List String → EpisodeStore P → EpisodeStore P
  unfolding resolve_alias put_all insert lookup add_missing sort_texts
  ensure now episode_id scope aliases s =
      let key = resolve_alias s episode_id in
      let m = next_meta now key scope aliases (lookup (sanitize key) s.metas) in
      record s {
        metas = insert (sanitize m.key) m s.metas;
        aliases = put_all aliases key s.aliases;
      }

  -- `_append`
  unfoldable pub append_record : ℕ → String → EpisodeRecord P → EpisodeStore P → EpisodeStore P
  unfolding resolve_alias insert lookup
  append_record now episode_id r s =
      let key = resolve_alias s episode_id in
      record s {
        files =
            insert (sanitize key) (or_else (lookup (sanitize key) s.files) [] ++ r ∷ []) s.files;
        metas = counted_meta sanitize now (lookup (sanitize key) s.metas) s.metas;
      }

  -- `history`, of a positive limit
  unfoldable pub history : String → ℕ → EpisodeStore P → List (EpisodeRecord P)
  unfolding resolve_alias lookup
  history episode_id limit s =
      let rows = or_else (lookup (sanitize (resolve_alias s episode_id)) s.files) [] in
      drop (length rows - limit) rows
