-- ===== src/Connectors/Tests.antt =====
-- Runs of a manager with two connectors, and the theorems at those.
use agentcook.Prelude.{String, ℕ, ◌+◌, ◌≡◌, refl, true, false, All, [], ◌∷◌, some}
use agentcook.Prelude.Dict
use agentcook.Prelude.Results.{ok}
use agentcook.Connectors.Adapter.{
  ConnectorKind, mcp, oauth, http, ConnectorConfig, Tokens, OAuthTokenStore, HttpTransport, Adapter,
  is_token_expired, refresh_token, prepare, open_adapter, create_connector,
}
use agentcook.Connectors.Manager.{ConnectorManager, add, open_all, close_all, all_tools}
use agentcook.Connectors.Manager.Laws.{names, Opened, close_all-open_all}

-- A token is the second at which it expires; the world counts the calls.
abbrev tokens : Tokens
tokens = record {
  Token = ℕ;
  is_nonempty = λ t. true;
  expires_at = λ t. t;
  refresh_token = λ t. "again";
  empty_token = 0;
}

abbrev transport : HttpTransport tokens ℕ String
transport request calls = (ok (some 900), calls + 1)

abbrev token_store : OAuthTokenStore tokens ℕ String
token_store = record {
  get_token = λ name calls. (ok (some 100), calls + 1);
  save_token = λ name token calls. (ok tt, calls + 1);
}

abbrev config : ConnectorKind → ConnectorConfig
config kind = record { name = "crm"; kind = kind; config = ("token_url", "https://x") ∷ [] }

abbrev adapter : ConnectorKind → Adapter tokens ℕ String
adapter kind = create_connector tokens ℕ String (config kind) (some transport) (some token_store)

-- The token is expired at 500: it is read, renewed and saved.
open_run : (open_adapter tokens ℕ String 500 (adapter oauth) 0).2 ≡ 3
unfolding open_adapter prepare refresh_token is_token_expired create_connector Dict.get
open_run = refl

abbrev manager : ConnectorManager tokens ℕ String
manager = ("crm", adapter oauth) ∷ ("tools", adapter mcp) ∷ []

abbrev opened : ConnectorManager tokens ℕ String
opened = (open_all tokens ℕ String 500 manager 0).0

close_all-open_all_example :
    Opened tokens ℕ String 500 manager 0 opened (open_all tokens ℕ String 500 manager 0).1
    × All (λ e. e.1.opened ≡ false) (close_all tokens ℕ String opened)
    × (names tokens ℕ String (close_all tokens ℕ String opened) ≡ names tokens ℕ String manager)
    × (all_tools tokens ℕ String opened ≡ all_tools tokens ℕ String manager)
    × (all_tools tokens ℕ String (close_all tokens ℕ String opened)
        ≡ all_tools tokens ℕ String manager)
close_all-open_all_example = close_all-open_all tokens ℕ String 500 manager 0

add_run : add tokens ℕ String (adapter http) [] ≡ ok (("crm", adapter http) ∷ [])
unfolding add Dict.get Dict.put create_connector
add_run = refl
