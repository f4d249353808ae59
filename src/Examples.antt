-- ===== src/Examples.antt =====
-- Runs of the definitions at concrete inputs, and each theorem at one.
mod Urls
mod Uptimes
mod Trees
mod Database
mod Access
mod Forms
mod Ticked
mod LogLines
mod Questions
mod History
mod Calls
mod Editing
mod Consoles
mod Pages
mod Previews
mod Creating
mod Ranks
mod Naming
mod Sessions
mod Settings
mod Offers
mod Fields
