-- ===== src/Connectors/Adapter.antt =====
-- `ConnectorConfig` of types.py; `BaseAdapter`, its subclasses and `create_connector` of connector.py.
pub mod Laws
use agentcook.Prelude.{
  String, ℕ, Bool, true, false, ◌&&◌, List, [], Option, none, some, ltb, ◌==◌, str_eq,
  if◌then◌else◌,
}
use agentcook.Prelude.Strings.{fmt, truthy}
use agentcook.Prelude.Results.{Result, ok, raise, runtime_error}
use agentcook.Prelude.Dict
use agentcook.Prelude.Dict.{Dict}
use agentcook.Prelude.{◌∷◌}

pub data ConnectorKind : Type 0 where
  mcp oauth http custom webhook : ConnectorKind

-- The values of `config` that are read are texts.
pub record ConnectorConfig : Type 0 where
  pub name : String
  pub kind : ConnectorKind
  pub config : Dict String

-- OAuth tokens: whether the dict has keys, its `expires_at` in seconds (0 where it is missing) and its
-- `refresh_token` ("" where it is missing).
pub record Tokens : Type 1 where
  pub Token : Type 0
  pub is_nonempty : Token → Bool
  pub expires_at : Token → ℕ
  pub refresh_token : Token → String
  pub empty_token : Token

pub record Refresh : Type 0 where
  pub url : String
  pub refresh_token : String
  pub client_id : String

module _ (ts : Tokens) (World Tool : Type 0) where
  open ts use {Token}

  -- `HttpTransport`, in the one call that is made: the answer is a dict or something else.
  abbrev pub HttpTransport : Type 0
  HttpTransport = Refresh → World → Result (Option Token) × World

  pub record OAuthTokenStore : Type 0 where
    pub get_token : String → World → Result (Option Token) × World
    pub save_token : String → Token → World → Result (Unit {0}) × World

  -- What the subclasses add to the shared state.
  pub data Part : Type 0 where
    oauth_part : Option HttpTransport → Option OAuthTokenStore → Part
    http_part : Option HttpTransport → Part
    mcp_part : List Tool → Part
    webhook_part : Part

  pub record Adapter : Type 0 where
    pub config : ConnectorConfig
    pub opened : Bool
    pub part : Part

  -- `_is_token_expired`, at the time `now` in seconds.
  unfoldable pub is_token_expired : ℕ → Token → Bool
  is_token_expired now token =
      if ts.expires_at token == 0 then false else ltb (ts.expires_at token) now

  abbrev setting : String → ConnectorConfig → String
  setting key c = elim (Dict.get key c.config) [ none ↦ "" | some v ↦ v ]

  abbrev new_token : Option Token → Token
  new_token none = ts.empty_token
  new_token (some token) = token

  -- `_refresh_token`; the caller keeps no more of it than whether it raised.
  unfoldable pub refresh_token :
      ConnectorConfig
      → Option HttpTransport
      → OAuthTokenStore
      → Token
      → World
      → Result (Unit {0}) × World
  refresh_token c none store token world =
      (raise (runtime_error "HttpTransport not injected"), world)
  refresh_token c (some transport) store token world =
      let url = setting "token_url" c in
      let (response, world') =
        transport
          (record {
            url = url;
            refresh_token = ts.refresh_token token;
            client_id = setting "client_id" c;
          })
          world in
      if truthy url
      then (elim response [
        | raise e ↦ (raise e, world')
        | ok r ↦ store.save_token c.name (new_token r) world'
      ])
      else (
        raise (runtime_error (fmt ("OAuthAdapter('" ∷ c.name ∷ "'): no token_url in config" ∷ []))),
        world,
      )

  -- The part of `OAuthAdapter.open` before `_opened` is set.
  unfoldable pub prepare :
      ℕ
      → ConnectorConfig
      → Option HttpTransport
      → Option OAuthTokenStore
      → World
      → Result (Unit {0}) × World
  prepare now c transport none world = (
    raise (runtime_error (fmt ("OAuthAdapter('" ∷ c.name ∷ "') requires a token store" ∷ []))),
    world,
  )
  prepare now c transport (some store) world =
      let (found, world') = store.get_token c.name world in
      elim found [
        | raise e ↦ (raise e, world')
        | ok none ↦ (ok tt, world')
        | ok (some token) ↦
            if ts.is_nonempty token && is_token_expired now token
            then refresh_token c transport store token world'
            else (ok tt, world')
      ]

  abbrev pub prepare_part : ℕ → ConnectorConfig → Part → World → Result (Unit {0}) × World
  prepare_part now c (oauth_part transport store) world = prepare now c transport store world
  prepare_part now c (http_part transport) world = (ok tt, world)
  prepare_part now c (mcp_part tools) world = (ok tt, world)
  prepare_part now c webhook_part world = (ok tt, world)

  unfoldable pub opening : Adapter → Result (Unit {0}) → Adapter
  opening a (ok _) = record a { opened = true }
  opening a (raise e) = a

  -- `open` of the four classes: whether it raised, the adapter and the world.
  unfoldable pub open_adapter : ℕ → Adapter → World → Result (Unit {0}) × Adapter × World
  open_adapter now a world =
      let (done, world') = prepare_part now a.config a.part world in
      if a.opened then (ok tt, a, world) else (done, opening a done, world')

  unfoldable pub close : Adapter → Adapter
  close a = record a { opened = false }

  abbrev pub tools_of : Part → List Tool
  tools_of (oauth_part transport store) = []
  tools_of (http_part transport) = []
  tools_of (mcp_part tools) = tools
  tools_of webhook_part = []

  unfoldable pub tools : Adapter → List Tool
  tools a = tools_of a.part

  -- `_ADAPTER_MAP` and the factory.
  abbrev part_for : ConnectorKind → Option HttpTransport → Option OAuthTokenStore → Part
  part_for oauth h store = oauth_part h store
  part_for http h store = http_part h
  part_for mcp h store = mcp_part []
  part_for webhook h store = webhook_part
  part_for custom h store = http_part h

  unfoldable pub create_connector :
      ConnectorConfig → Option HttpTransport → Option OAuthTokenStore → Adapter
  create_connector c h store = record { config = c; opened = false; part = part_for c.kind h store }
