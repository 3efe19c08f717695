-- ===== src/Tests.antt =====
-- Runs of the model on small inputs, and the theorems at such inputs.
mod CcacheFile
mod KeytabFile
mod TicketSet
mod Names
mod Addition
mod Folds
mod Profile
mod Userdb
mod Exchange
mod Userfiles
mod Directories
mod Accounts
mod Sockets
mod Sessions
mod Requests
mod Hosts
