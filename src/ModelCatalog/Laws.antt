-- ===== src/ModelCatalog/Laws.antt =====
-- What the cache of src/model_catalog.rs answers.
use kiro_gateway.Common.Text.{Text}
use kiro_gateway.Common.Result.{Result}
use kiro_gateway.ModelCatalog.{ModelCatalog}
