-- ===== src/Examples.antt =====
-- Runs of the model on concrete inputs, which are those of the repository's own tests where these
-- have them.
mod Runs
mod Tables
mod Durations
mod Suggestions
mod Executions
mod Ranges
mod Logs
mod Machines
mod Migrations
mod Catalogues
mod Escalations
