-- ===== src/Sites.antt =====
-- The sites of the web control plane (internal/webapp/db.go, agents.go): the table `agents` as a set of
-- rows, and the statements that read and change it. Texts are their bytes; times are nanoseconds, 0 for
-- NULL; of an address of the tunnel network its last byte is kept.
pub mod Forms
pub mod Check
pub mod Handle
pub mod Create
pub mod Enroll
pub mod Tables
pub mod Updates
pub mod Posts
pub mod Creation
pub mod Apart
pub mod Owner
pub mod ByCode
pub mod Authority
mod Tests
use selfremote.Common.{
  ℕ, ◌+◌, Bool, true, false, not, ◌&&◌, ◌||◌, String, List, [], ◌∷◌, ◌++◌, Option, none, some, map,
  ◌==◌, if◌then◌else◌,
}
use selfremote.Net.{Prefix}
use selfremote.Net.Bytes.{bytes_eq}
use selfremote.Throttle.{Throttle}
use selfremote.Routes.{AgentRoute, RouteMode, mode_auto, normalize_route_mode, effective}

pub record Site : Type 0 where
  pub id : ℕ
  pub user_id : ℕ
  pub agent_id : List ℕ
  pub name : List ℕ
  -- `none` while the site is pending.
  pub public_key : Option (List ℕ)
  pub tunnel_ip : Option ℕ
  pub totp_secret : List ℕ
  pub enabled : Bool
  pub routes : List AgentRoute
  pub enroll_code : List ℕ
  pub enroll_expires : ℕ
  pub enrolled_at : ℕ

-- The table with its next number, the setting of the route mode, the sites in agents.json as it was
-- written last, and the limit of wrong install codes.
pub record Sites : Type 0 where
  pub rows : List Site
  pub next : ℕ
  pub route_mode : String
  pub published : List Site
  pub limiter : Throttle

-- Code outside the repository: bytes as a text, net/netip's prefixes, base64, and the database's
-- comparison of texts.
pub record Codec : Type 0 where
  pub text : List ℕ → String
  pub parse_prefix : String → Option Prefix
  pub print : Prefix → String
  pub decode_base64 : List ℕ → Option (List ℕ)
  pub encode_base64 : List ℕ → List ℕ
  pub collate : List ℕ → List ℕ → Bool

-- What a request meets: the clock, the random source's bytes for a code, a new secret and key, whether the database answers each of its
-- statements, the addresses of the devices, whether the hub's key and address are known.
pub record World : Type 0 where
  pub now : ℕ
  pub code : Option (List ℕ)
  pub secret : Option (List ℕ)
  pub key : Option (List ℕ)
  pub found_ok : Bool
  pub listed_ok : Bool
  pub relisted_ok : Bool
  pub setting_ok : Bool
  pub in_use_ok : Bool
  pub first_ok : Bool
  pub second_ok : Bool
  pub synced_ok : Bool
  pub devices : List ℕ
  pub hub_key : Bool
  pub server_addr : Bool

-- How a request ends; `panicked` is a panic of the handler.
pub data Reply : Type 0 where
  bad_csrf not_found forbidden throttled bad_request refused conflict failed unavailable : Reply
  panicked done : Reply

-- `UPDATE agents SET ... WHERE id = ?`
unfoldable pub change : ℕ → (Site → Site) → Sites → Sites
change id f t = record t { rows = map (λ (s : Site). if s.id == id then f s else s) t.rows }

-- `DELETE FROM agents WHERE id = ?`
unfoldable pub without : ℕ → List Site → List Site
without id [] = []
without id (s ∷ rows) = let rest = without id rows in if s.id == id then rest else s ∷ rest

abbrev pub delete_site : ℕ → Sites → Sites
delete_site id t = record t { rows = without id t.rows }

-- `allAgents` with the test for a key in `syncAgents`.
unfoldable pub enrolled : List Site → List Site
enrolled [] = []
enrolled (s ∷ rows) =
    let rest = enrolled rows in elim s.public_key [ none ↦ rest | some _ ↦ s ∷ rest ]

-- `syncAgents`: an error is logged.
unfoldable pub sync : World → Sites → Sites
unfolding enrolled
sync w t = if w.synced_ok then record t { published = enrolled t.rows } else t

abbrev pub reset_key : Site → Site
reset_key s = record s { public_key = none; enrolled_at = 0 }

abbrev pub with_code : List ℕ → ℕ → Site → Site
with_code code expires s = record s { enroll_code = code; enroll_expires = expires }

-- `bindAgentEnrollment`
abbrev pub bound : List ℕ → ℕ → Site → Site
bound key now s = record s {
  public_key = some key;
  enrolled_at = now;
  enroll_code = [];
  enroll_expires = 0;
  totp_secret = [];
}

-- The addresses in `tunnelIPsInUse`.
unfoldable pub site_ips : List Site → List ℕ
site_ips [] = []
site_ips (s ∷ rows) =
    let rest = site_ips rows in elim s.tunnel_ip [ none ↦ rest | some ip ↦ ip ∷ rest ]

abbrev pub has_key : (List ℕ → List ℕ → Bool) → List ℕ → Option (List ℕ) → Bool
has_key collate key none = false
has_key collate key (some k) = collate k key

module _ (codec : Codec) where
  -- `agentByAgentID`
  unfoldable pub site_by_agent_id : List ℕ → List Site → Option Site
  site_by_agent_id id [] = none
  site_by_agent_id id (s ∷ rows) =
      let rest = site_by_agent_id id rows in if codec.collate s.agent_id id then some s else rest

  -- `agentByEnrollCode`: a blank code is no site's.
  unfoldable pub site_by_code : List ℕ → List Site → Option Site
  site_by_code code [] = none
  site_by_code code (s ∷ rows) =
      let rest = site_by_code code rows in if codec.collate s.enroll_code code then some s else rest

  abbrev pub pending_site : List ℕ → List Site → Option Site
  pending_site [] rows = none
  pending_site (b ∷ bs) rows = site_by_code (b ∷ bs) rows

  -- The index on `public_key`: another row has the key.
  unfoldable pub key_taken : ℕ → List ℕ → List Site → Bool
  key_taken id key [] = false
  key_taken id key (s ∷ rows) =
      not (s.id == id) && has_key codec.collate key s.public_key || key_taken id key rows

  -- `addAgent` of a pending site: the index on `agent_id`.
  unfoldable pub add_site : Site → Sites → Option Sites
  unfolding site_by_agent_id
  add_site s t = elim (site_by_agent_id s.agent_id t.rows) [
    | some _ ↦ none
    | none ↦ some (record t { rows = record s { id = t.next } ∷ t.rows; next = t.next + 1 })
  ]

  -- The prefixes that a site publishes, those whose text is a prefix.
  unfoldable pub effective_prefixes : List AgentRoute → List Prefix
  unfolding effective
  effective_prefixes [] = []
  effective_prefixes (r ∷ rs) =
      let rest = effective_prefixes rs in
      elim (codec.parse_prefix (effective r)) [ none ↦ rest | some p ↦ p ∷ rest ]

  abbrev pub is_self : Option ℕ → ℕ → Bool
  is_self none id = false
  is_self (some self) id = id == self

  -- `otherEffectivePrefixes`
  unfoldable pub other_effective_prefixes : Option ℕ → List Site → List Prefix
  unfolding effective_prefixes
  other_effective_prefixes self [] = []
  other_effective_prefixes self (s ∷ rows) =
      let rest = other_effective_prefixes self rows in
      if is_self self s.id then rest else effective_prefixes s.routes ++ rest

-- `normalizeRouteMode(s.getSetting(...))`
unfoldable pub route_mode_of : World → Sites → RouteMode
unfolding normalize_route_mode
route_mode_of w t = if w.setting_ok then normalize_route_mode t.route_mode else mode_auto
