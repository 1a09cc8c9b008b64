-- ===== src/Examples.antt =====
-- The theorems at concrete inputs: one module for each part.
mod Data
mod RiskCases
mod GateCases
mod MarketCases
mod SqliteCases
mod TextCases
mod RuntimeCases
mod PaperCases
mod OmsCases
mod FillCases
