-- ===== src/Cjson.antt =====
-- The cJSON library (1_客户端/cJSON, another project's code) as the programs call it: a parameter of the
-- models. A node is a `cJSON *` that is not NULL.
mod Defs
pub mod Sample
pub use Defs.{Cjson, HasString}
