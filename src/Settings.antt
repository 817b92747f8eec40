-- ===== src/Settings.antt =====
-- The page of the settings: ui/src/app/settings/page.tsx. A bulk account is one of many accounts of a
-- provider, with a number in its name.
pub mod Toasts
pub mod Numbers
pub mod Providers
pub mod Bulk
pub mod Handlers
pub mod Telegram
pub mod JsonForms
pub mod Mcp
pub mod Catalog
pub mod Integration
pub mod Events
pub mod Dashboard
mod Examples
