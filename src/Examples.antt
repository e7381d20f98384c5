-- ===== src/Examples.antt =====
-- Concrete inputs on which the theorems apply.
mod Data
mod Gate
mod Jobs
mod Messages
mod Runs
mod Choices
mod Rules
mod Service
mod Trees
mod Submissions
mod Mysql
mod Plans
mod Answers
mod Settings
mod MysqlPlans
