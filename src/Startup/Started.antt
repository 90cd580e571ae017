-- ===== src/Startup/Started.antt =====
-- `mainRun` of main.go: from the files to the database and the wallet that the process serves with.
use contact_server.Base.{String, false, Option, none, some, ok, ◌≡◌, ◌≢◌, length, arith}
use contact_server.Wallet.Hex.{IsBytes}
use contact_server.Wallet.Cipher.{Bytes, Aes, IsLawful}
use contact_server.Wallet.Keys.{KeyMaker, Wallet, key_of, to_wallet, parse_wallet}
use contact_server.Wallet.Keys.Opening.{parse_wallet-to_wallet}
use contact_server.Wallet.Links.{WConf}
use contact_server.Startup.{Config, HttpCfg, Globals, start_globals, Opened, Outside}
use contact_server.Startup.Main.{
  StartParam, read_config, init_config, open_wallet_from_path, w_inst, main_run,
}
use contact_server.Startup.Chosen.{opened}
use contact_server.Startup.Configured.{Configured, init_config_lem}

module _ (k : KeyMaker) (a : Aes) (o : Outside) where
  -- `WInst` where the wallet's file opens.
  w_inst_lem :
      (g : Globals) (w : WConf) (inst : Wallet)
      → g.wallet_conf ≡ some w
      → open_wallet_from_path o k a w.wallet_path w.wallet_auth ≡ ok inst
      → (inst.address ≢ none)
      → w_inst o k a g ≡ (ok inst, g)
  unfolding w_inst
  w_inst_lem g w inst conf opens named = ground (arith, conf, opens, named)

  named_by_to_wallet :
      (seed : Bytes) (pwd : String) (s : a.State) (w : Wallet)
      → (to_wallet k a (key_of k seed) pwd s).0 ≡ ok w
      → w.address ≢ none
  unfolding to_wallet
  named_by_to_wallet seed pwd s w made = ground (arith, made)

  module _ (L : IsLawful a) (seed : Bytes) (s : a.State) (param : StartParam) (cf : Config)
      (c : HttpCfg) (w : WConf) (db : Option Opened) (wallet : Wallet) (json : String) where
    abbrev opened_wallet : Wallet
    opened_wallet = record wallet { key = some (key_of k seed) }

    -- With a lawful AES and random source: where the configuration has what the start needs, and the
    -- wallet's file is read as the wallet that `ToWallet` made of the key of a seed of 32 bytes under
    -- the configured password, the process serves with that wallet, opened, and as configured.
    pub main_run_lem :
        param.version ≡ false
        → read_config o param.config ≡ ok (some cf)
        → cf.http_cfg ≡ some c
        → cf.w_conf ≡ some w
        → opened o cf c ≡ ok db
        → IsBytes seed
        → length seed ≡ 32
        → (to_wallet k a (key_of k seed) w.wallet_auth s).0 ≡ ok wallet
        → o.read_file w.wallet_path ≡ ok json
        → k.unmarshal_wallet json ≡ ok wallet
        → let (r, g) = main_run o k a (ok tt) param start_globals in
          (r ≡ ok (some opened_wallet)) × Configured o param.port cf c w db g
    unfolding main_run open_wallet_from_path
    main_run_lem serves reads has_http has_wallet is_open bytes size made file read =
        let parsed : parse_wallet k a json w.wallet_auth ≡ ok opened_wallet =
          parse_wallet-to_wallet k a L seed w.wallet_auth s wallet json bytes size made read in
        let found : open_wallet_from_path o k a w.wallet_path w.wallet_auth ≡ ok opened_wallet =
          ground (arith, file, parsed) in
        let set_up =
          init_config_lem o param.port param.config cf c w db reads has_http has_wallet is_open in
        ground (
          arith,
          serves,
          set_up,
          w_inst_lem (init_config o param.port param.config start_globals).1 w opened_wallet
              (ground (arith, set_up)) found (named_by_to_wallet seed w.wallet_auth s wallet made),
        )
