-- ===== src/Forecast.antt =====
-- 1_服务器_客户端/1_客户端/forecast.c: the city to ask for, and the query of the weather service.
pub mod City
pub mod Response
pub mod Extract
pub mod Query
pub mod Resources
pub mod Lengths
pub mod Sample
mod Tests
