-- ===== src/Cli/Commands/Roles.antt =====
-- What the commands of crates/cli/src/main.rs make of flags, configuration and profile.
use dotminecraft.Prelude.{
  ℕ, ◌≤◌, ◌≡◌, refl, subst, ◌∙◌, inl, inr, true, false, Option, none, some, Result, ok,
  Result-cases, ok-injective, arith,
}
use dotminecraft.Core.Text.{Str}
use dotminecraft.Net.Swarm.{Swarm}
use dotminecraft.Proxy.Limiter.{Floats}
use dotminecraft.Proxy.Tunnels.{Proxy, RunPublish}
use dotminecraft.Proxy.Tunnels.Caps.{open_tunnels-le-max_conns}
use dotminecraft.Cli.Config.{
  Config, unwrap_or, Table, PublishTable, FileRead, contents, not_found, unreadable, fill, load,
}
use dotminecraft.Cli.Tunnel.{net_config}
use dotminecraft.Cli.Keystore.{Profile, System, load_keyid_len}
use dotminecraft.Cli.Keystore as Keystore
use dotminecraft.Cli.Commands.{PublishArgs, PublishCall, net_opts, cmd_publish}

-- The flag, or else what stands in the file, or else the default.
abbrev pub setting : Option ℕ → Option ℕ → ℕ → ℕ
setting (some flag) file default = flag
setting none (some file) default = file
setting none none default = default

-- A field of the `[publish]` section, where there is a file, a section and the field.
abbrev pub in_publish : {A : Type 0} → (PublishTable → Option A) → Option PublishTable → Option A
in_publish field none = none
in_publish field (some t) = field t

abbrev pub empty_table : Table
empty_table = record { network = none; publish = none; connect = none }

-- What the file says; a file that is not there says nothing.
abbrev pub Says : (Str → Result Str Table) → FileRead → Table → Type 0
Says from_str (contents s) t = from_str s ≡ ok t
Says from_str not_found t = t ≡ empty_table
Says from_str (unreadable e) t = ⊥

load-Says :
    (from_str : Str → Result Str Table) (file : FileRead) (t : Table)
    → Says from_str file t
    → load from_str file ≡ ok (fill t)
unfolding load fill
load-Says from_str (contents s) t e = rw e refl
load-Says from_str not_found t e = rw e refl
load-Says from_str (unreadable x) t e = absurd e

max_conns-setting :
    (t : Table) (flag : Option ℕ)
    → unwrap_or (fill t).publish.max_conns flag
      ≡ setting flag (in_publish (λ p. p.max_conns) t.publish) 32
unfolding fill
max_conns-setting t flag = ground arith

module _ {S : Type 0} (sw : Swarm S) (sys : System) (profile : Profile) where
  -- What a publish that goes ahead is called with.
  pub record Publishes (cfg : Config) (args : PublishArgs) (call : PublishCall) : Type 0 where
    pub identity : Keystore.load sys profile ≡ ok call.identity
    pub keyid_len : load_keyid_len sys profile ≡ ok call.keyid_len
    pub net_cfg : net_config sw (net_opts cfg true false) ≡ ok call.net_cfg
    pub vanity : call.vanity ≡ unwrap_or cfg.publish.vanity args.vanity
    pub max_conns : call.max_conns ≡ unwrap_or cfg.publish.max_conns args.max_conns
    pub max_conn_rate : call.max_conn_rate ≡ cfg.publish.max_conn_rate

  pub cmd_publish-ok :
      (cfg : Config) (args : PublishArgs) (call : PublishCall)
      → cmd_publish sw sys profile (ok cfg) args ≡ ok call
      → Publishes cfg args call
  unfolding cmd_publish
  cmd_publish-ok cfg args call h = elim (Result-cases (Keystore.load sys profile)) [
    | inr (x, e) ↦ cc (rw (e, cmd_publish) at h)
    | inl (id, e) ↦ elim (Result-cases (load_keyid_len sys profile)) [
      | inr (x, l) ↦ cc (rw (e, cmd_publish, l) at h)
      | inl (n, l) ↦ elim (Result-cases (net_config sw (net_opts cfg true false))) [
        | inr (x, p) ↦ cc (rw (e, cmd_publish, l, p) at h)
        | inl (net, p) ↦
            let g = ok-injective (rw (e, cmd_publish, l, p) at h) in
            subst (Publishes cfg args) g (record {
              identity = e;
              keyid_len = l;
              net_cfg = p;
              vanity = refl;
              max_conns = refl;
              max_conn_rate = refl;
            })
      ]
    ]
  ]

  -- The cap of a publisher: in every state that the proxy of a `publish` reaches, no more tunnels
  -- are open than the flag says, or else the file, or else 32.
  pub cmd_publish-caps :
      {F : Type 0} (fl : Floats F) (from_str : Str → Result Str Table) (file : FileRead) (t : Table)
      (args : PublishArgs) (call : PublishCall) (now : ℕ) (p : Proxy F)
      → Says from_str file t
      → cmd_publish sw sys profile (load from_str file) args ≡ ok call
      → RunPublish fl call.max_conns call.max_conn_rate now p
      → p.open_tunnels ≤ setting args.max_conns (in_publish (λ q. q.max_conns) t.publish) 32
  cmd_publish-caps fl from_str file t args call now p said h reach =
      let made = cmd_publish-ok (fill t) args call (rw (load-Says from_str file t said) at h) in
      let cap = made.max_conns ∙ max_conns-setting t args.max_conns in
      rw cap at ((open_tunnels-le-max_conns fl call.max_conns call.max_conn_rate now p reach).1)
