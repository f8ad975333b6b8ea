-- ===== src/Config/RoundTrip.antt =====
-- Reading the written form of a configuration in src/config.rs.
use kiro_gateway.Common.{◌≡◌, refl, sym, ap, ◌∙◌, Bool, true, false}
use kiro_gateway.Common.Text.{text_eq}
use kiro_gateway.Common.Result.{ok}
use kiro_gateway.Config.{AppConfig, config_version}
use kiro_gateway.Config.Wire.{from, try_from}

-- A configuration of the supported version that is written is read back as it was, in every
-- setting.
pub try_from-from : (c : AppConfig) → c.version ≡ config_version → try_from (from c) ≡ ok c
unfolding try_from from text_eq
try_from-from c supported =
    read (c.log_json) refl ∙ ap (λ v. ok (record c { version = v })) (sym supported)
  where
    read :
        (b : Bool) → c.log_json ≡ b → try_from (from c) ≡ ok (record c { version = config_version })
    read true e = rw e refl
    read false e = rw e refl
